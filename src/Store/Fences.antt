-- ===== src/Store/Fences.antt =====
-- control-plane/internal/adapter/configmap/store.go: the ownership of a record that is deleted.
use session_platform.Prelude.{
  ℕ, zero, suc, ◌≡◌, refl, sym, ap, ◌∙◌, subst, inl, inr, ◌⊎◌, Option, none, some, List, [], ◌∷◌,
  Text, text_eq_iff, arith, Result, ok, err, Action, run-cases,
}
use session_platform.Session.Errors.{
  Error, ApiError, missing, already_exists, version_conflict, refused,
}
use session_platform.Kubernetes.{ConfigMap, Api}
use session_platform.Kubernetes.Versions.{Versioned, Seen, Gone, config_map-old}
use session_platform.Store.Objects.{
  Codec, cm_name, annotation, annotation_lifecycle_owner, put_max_retries,
}
use session_platform.Store.Records.{delete, delete_loop, delete_round, delete_read}

-- The worlds before and after each delete of a ConfigMap that was accepted, the newest first.
abbrev pub Deletes : Type 0 → Type 0
Deletes W = List (W × W)

module _ {W : Type 0} where
  abbrev silent : {E A : Type 0} → Action W E A → Action (W × Deletes W) E A
  silent m s = let (r, w) = m s.0 in (r, (w, s.1))

  abbrev noted : Result ApiError Unit → W → W → Deletes W → Deletes W
  noted (ok t) v w log = (v, w) ∷ log
  noted (err e) v w log = log

  -- The API server with a note of its accepted deletes.
  abbrev pub noting_deletes : Api W → Api (W × Deletes W)
  noting_deletes k8s = record {
    get_config_map = λ name. silent (k8s.get_config_map name);
    list_config_maps = λ key value. silent (k8s.list_config_maps key value);
    create_config_map = λ cm. silent (k8s.create_config_map cm);
    update_config_map = λ cm. silent (k8s.update_config_map cm);
    delete_config_map = λ name sent s.
        let (r, w) = k8s.delete_config_map name sent s.0 in (r, (w, noted r s.0 w s.1));
    get_lease = λ name. silent (k8s.get_lease name);
    list_leases = λ key value. silent (k8s.list_leases key value);
    create_lease = λ l. silent (k8s.create_lease l);
    update_lease = λ l. silent (k8s.update_lease l);
    delete_lease = λ name sent. silent (k8s.delete_lease name sent);
    now = λ s. k8s.now s.0;
    ctx_err = λ s. k8s.ctx_err s.0;
  }

module _ {W : Type 0} (k8s : Api W) (codec : Codec) (laws : Versioned k8s) (id token : Text) where
  -- The one write of a delete: what stood there before it was the caller's, and nothing is left.
  pub record Removed (v u : W) : Type 0 where
    pub before : W
    pub behind : W
    pub cm : ConfigMap
    pub started : laws.Later v before
    pub happened : laws.Next before behind
    pub returned : laws.Later behind u
    pub stored : laws.config_map before (cm_name id) ≡ some cm
    pub owned : annotation annotation_lifecycle_owner cm.annotations ≡ token
    pub left : laws.config_map behind (cm_name id) ≡ none

  -- The call deleted one record, or none, and then the record was gone at some moment of the call.
  pub Fenced : W → W × Deletes W → Type 0
  Fenced w s =
      ((v : W) × (s.1 ≡ (v, s.0) ∷ []) × laws.Later w v × Removed v s.0)
      ⊎ ((s.1 ≡ []) × Gone laws.Later laws.config_map (cm_name id) w s.0)

  Fenced-later : (v w : W) (s : W × Deletes W) → laws.Later v w → Fenced w s → Fenced v s
  unfolding Fenced
  Fenced-later v w s l (inl (u, only, started, removed)) =
      inl (u, only, laws.later_trans v w u l started, removed)
  Fenced-later v w s l (inr (nothing, gone)) = inr (
    nothing,
    record {
      at = gone.at;
      started = laws.later_trans v w gone.at l gone.started;
      returned = gone.returned;
      absent = gone.absent;
    },
  )

  Retries : Option (Action (W × Deletes W) Error Unit) → Type 0
  Retries none = Unit
  Retries (some again) = (w : W) (s : W × Deletes W) → again (w, []) ≡ (ok tt, s) → Fenced w s

  deleted-Fenced :
      (next : Option (Action (W × Deletes W) Error Unit)) (cm : ConfigMap) (c : ApiError)
      (w v u : W) (s : W × Deletes W)
      → Retries next
      → laws.Later w v
      → laws.Later w u
      → k8s.delete_config_map (cm_name id) cm.resource_version v ≡ (err c, u)
      → delete_read (noting_deletes k8s) codec next id token cm (v, []) ≡ (ok tt, s)
      → Fenced w s
  unfolding delete_read Fenced Retries
  deleted-Fenced next cm missing w v u s retries lv l e h =
      let gone = laws.delete_config_map_missing (cm_name id) cm.resource_version v u e in
      let ended : (u, []) ≡ s = ground (arith, h, e) in
      inr (
        ap (λ (x : W × Deletes W). x.1) (sym ended),
        record {
          at = gone.at;
          started = laws.later_trans w v gone.at lv gone.started;
          returned = subst (λ (x : W × Deletes W). laws.Later gone.at x.0) ended gone.returned;
          absent = gone.absent;
        },
      )
  deleted-Fenced none cm c w v u s retries lv l e h = absurd (ground (arith, h, e))
  deleted-Fenced (some again) cm version_conflict w v u s retries lv l e h =
      Fenced-later w u s l (retries u s (ground (arith, h, e)))
  deleted-Fenced (some again) cm already_exists w v u s retries lv l e h =
      absurd (ground (arith, h, e))
  deleted-Fenced (some again) cm (refused n) w v u s retries lv l e h =
      absurd (ground (arith, h, e))

  delete_read-Fenced :
      (next : Option (Action (W × Deletes W) Error Unit)) (cm : ConfigMap) (w v : W)
      (s : W × Deletes W)
      → Retries next
      → Seen laws.Later laws.config_map (cm_name id) w v cm
      → delete_read (noting_deletes k8s) codec next id token cm (v, []) ≡ (ok tt, s)
      → Fenced w s
  delete_read-Fenced next cm w v s retries seen h =
      elim (run-cases (k8s.delete_config_map (cm_name id) cm.resource_version) v) [
        | inl (t, u, e) ↦
            let won = laws.delete_config_map_lem (cm_name id) cm.resource_version v u e in
            let ended : (u, (v, u) ∷ []) ≡ s = unfold delete_read in ground (arith, h, e) in
            subst (Fenced w) ended (
              unfold Fenced in
              inl (
                v,
                refl,
                lv,
                record {
                  before = won.at;
                  behind = won.next;
                  cm = cm;
                  started = won.started;
                  happened = won.happened;
                  returned = won.returned;
                  stored =
                      won.stored ∙ ap some (config_map-old laws (cm_name id) w v u cm seen won);
                  owned =
                      unfold delete_read in
                      ground (
                        arith,
                        h,
                        text_eq_iff (annotation annotation_lifecycle_owner cm.annotations) token,
                      );
                  left = won.left;
                },
              ))
        | inr (c, u, e) ↦
            deleted-Fenced next cm c w v u s retries lv
              (laws.later_trans w v u lv (
                subst (λ x. laws.Later v x) (ap (λ (p : Result ApiError Unit × W). p.1) e)
                  (laws.delete_config_map_later (cm_name id) cm.resource_version v)))
              e h
      ]
    where
      lv : laws.Later w v
      lv = laws.later_trans w seen.at v seen.started seen.returned

  absent-Fenced :
      (c : ApiError) (next : Option (Action (W × Deletes W) Error Unit)) (w v : W)
      (s : W × Deletes W)
      → k8s.get_config_map (cm_name id) w ≡ (err c, v)
      → delete_round (noting_deletes k8s) codec next id token (w, []) ≡ (ok tt, s)
      → Fenced w s
  unfolding delete_round Fenced
  absent-Fenced missing next w v s e h =
      let gone = laws.get_config_map_missing (cm_name id) w v e in
      let ended : (v, []) ≡ s = ground (arith, h, e) in
      inr (
        ap (λ (x : W × Deletes W). x.1) (sym ended),
        record {
          at = gone.at;
          started = gone.started;
          returned = subst (λ (x : W × Deletes W). laws.Later gone.at x.0) ended gone.returned;
          absent = gone.absent;
        },
      )
  absent-Fenced already_exists next w v s e h = absurd (ground (arith, h, e))
  absent-Fenced version_conflict next w v s e h = absurd (ground (arith, h, e))
  absent-Fenced (refused n) next w v s e h = absurd (ground (arith, h, e))

  delete_round-Fenced :
      (next : Option (Action (W × Deletes W) Error Unit)) (w : W) (s : W × Deletes W)
      → Retries next
      → delete_round (noting_deletes k8s) codec next id token (w, []) ≡ (ok tt, s)
      → Fenced w s
  delete_round-Fenced next w s retries h = elim (run-cases (k8s.get_config_map (cm_name id)) w) [
    | inl (cm, v, e) ↦
        delete_read-Fenced next cm w v s retries (laws.get_config_map_lem (cm_name id) w v cm e).0
          (unfold delete_round in ground (arith, h, e))
    | inr (c, v, e) ↦ absent-Fenced c next w v s e h
  ]

  delete_loop-Fenced :
      (left : ℕ) (w : W) (s : W × Deletes W)
      → delete_loop (noting_deletes k8s) codec left id token (w, []) ≡ (ok tt, s)
      → Fenced w s
  unfolding delete_loop Retries
  delete_loop-Fenced zero w s h = delete_round-Fenced none w s tt h
  delete_loop-Fenced (suc left) w s h =
      delete_round-Fenced (some (delete_loop (noting_deletes k8s) codec left id token)) w s
        (λ v t r. delete_loop-Fenced left v t r) h

-- A delete that reports success, after however many retries, either deleted exactly one record, in one write during the
-- call just before which the record's lifecycle owner was the caller's token; or it deleted nothing, and the record
-- was gone at one moment of the call.
pub delete-Fenced :
    {W : Type 0} (k8s : Api W) (codec : Codec) (laws : Versioned k8s) (id token : Text) (w : W)
    (s : W × Deletes W)
    → delete (noting_deletes k8s) codec id token (w, []) ≡ (ok tt, s)
    → Fenced k8s codec laws id token w s
unfolding delete
delete-Fenced k8s codec laws id token w s h =
    delete_loop-Fenced k8s codec laws id token put_max_retries w s h
