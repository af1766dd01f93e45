-- ===== src/Service/Cleanup.antt =====
-- control-plane/internal/service/manager.go: what a failed `Create` or `Restore` leaves running.
use session_platform.Prelude.{
  ℕ, ◌≡◌, refl, true, false, Option, none, some, [], Text, subst, arith, Result, ok, err, lift,
  pure, Action, not, inl, inr, ◌⊎◌, if◌then◌else◌, run-cases, ◌∷◌, ◌>>=◌,
}
use session_platform.Session.Errors.{Error}
use session_platform.Prelude.Runs.{Runs, Runs-bind, Runs-if}
use session_platform.Session.Types.{WorkloadType}
use session_platform.Session.Record.{Session}
use session_platform.Pods.{WorkloadSpec}
use session_platform.Service.Ports.{Ports, Checkpointer, AuthPool}
use session_platform.Service.Observed.{Trace, unlocks, locks, on_option, observed_pool, observed}
use session_platform.Service.Slots.{acquire_from, acquire_auth_slot, release_auth_slot_best_effort}
use session_platform.Service.Helpers.{
  check_context, checkpointer_for, locked, unlock_best_effort, with_renewal,
}
use session_platform.Service.Snapshot.{load_settled}
use session_platform.Service.Transactions.{is_snapshot}
use session_platform.Service.Unstarted.{load_settled-Clear, release-Clear}
use session_platform.Service.Restore.{
  Outcome, conclude, restore_with, restore_settings, restore_snapshot, restore,
}
use session_platform.Service.FreezeSafety.{observed_ok, checkpointer_for-observed}
use session_platform.Service.Create.{CreateRequest, register, provision, create}
use session_platform.Service.Cleaned.{
  cleaned, same_refs_refl, answer_lost, taken_over, Tidy, Clear, Settled, restore_into_pods-Runs,
}

-- A `Create` that fails asked the orchestrator, for every set of pods that it had started, to stop the whole set.
pub create-cleaned :
    {W : Type 0} (ports : Ports W) (req : CreateRequest) (w : W) (e : Error) (s : W × Trace)
    → create (observed ports) req (w, []) ≡ (err e, s)
    → cleaned [] s.1 ≡ true
unfolding create provision register acquire_auth_slot release_auth_slot_best_effort
create-cleaned ports req w e s h = grind (arith, same_refs_refl)

module _ {W : Type 0} (ports : Ports W) where
  abbrev Ended : Result Error Session × (W × Trace) → Type 0
  Ended (ok sess, s) = Clear s ⊎ (taken_over s.1 ≡ true)
  Ended (err e, s) = Clear s ⊎ (answer_lost s.1 ≡ true)

  abbrev Waiting : Result Error Unit × (W × Trace) → Type 0
  Waiting (r, s) = Clear s

  abbrev Acquired : Result Error (Option ℕ) × (W × Trace) → Type 0
  Acquired (r, s) = Clear s

  acquire-Runs :
      (workload : WorkloadType) (id : Text)
      → Runs Clear Acquired (acquire_auth_slot (observed ports) workload id)
  unfolding acquire_auth_slot
  acquire-Runs workload id = by_pool (ports.auth_pools workload)
    where
      by_pool :
          (pool : Option (AuthPool W))
          → Runs Clear Acquired (acquire_from (observed ports) id (on_option observed_pool pool))
      by_pool none = record { at = λ s h. h }
      by_pool (some pool) = record { at = λ s h later. grind (arith, h) }

  conclude-Runs :
      (workload : WorkloadType) (id : Text) (outcome : Outcome)
      → Runs (λ s. Tidy outcome s.1) Ended (conclude (observed ports) workload id outcome)
  unfolding conclude release_auth_slot_best_effort
  conclude-Runs workload id (false, r) =
      Runs-bind Waiting (record { at = λ s h. (release-Clear ports workload id).at s h })
        (λ e v h. inl h) λ t. record { at = λ s h. returned r s h }
    where
      returned : (r : Result Error Session) (s : W × Trace) → Clear s → Ended (r, s)
      returned (ok sess) s h = inl h
      returned (err e) s h = inl h
  conclude-Runs workload id (true, ok sess) = record { at = λ s h. inr h }
  conclude-Runs workload id (true, err e) = record { at = λ s h. inr h }

  restore_with-Runs :
      (id token : Text) (sess : Session) (spec : WorkloadSpec)
      (enabled : Result Error (Checkpointer W))
      → Runs Clear Ended (restore_with (observed ports) id token sess spec (observed_ok enabled))
  restore_with-Runs id token sess spec (err e) = record { at = λ s h. inl h }
  restore_with-Runs id token sess spec (ok ckpt) =
      Runs-bind Waiting (record { at = λ s h. alive s h }) (λ e v h. inl h)
        λ t.
          Runs-bind Acquired (acquire-Runs spec.type id) (λ e v h. inl h)
            λ slot.
              Runs-bind Settled
                (restore_into_pods-Runs ports id token sess ckpt (record spec { auth_slot = slot }))
                (λ e v h. inl h) λ outcome. conclude-Runs spec.type id outcome
    where
      alive : (s : W × Trace) → Clear s → Waiting (check_context (observed ports) s)
      alive s h later = grind (arith, h)

  restore_snapshot-Runs :
      (id token : Text) (sess : Session)
      → Runs Clear Ended (restore_snapshot (observed ports) id token sess)
  unfolding restore_snapshot
  restore_snapshot-Runs id token sess = by_settings (restore_settings sess)
    where
      with_checkpointer :
          (spec : WorkloadSpec)
          → Runs Clear Ended (
              restore_with
                (observed ports)
                id
                token
                sess
                spec
                (checkpointer_for (observed ports) spec.type))
      with_checkpointer spec =
          rw (checkpointer_for-observed ports spec.type)
            (restore_with-Runs id token sess spec (checkpointer_for ports spec.type))

      by_settings :
          (r : Result Error WorkloadSpec)
          → Runs Clear Ended (
              lift r >>= λ spec.
              restore_with
                (observed ports)
                id
                token
                sess
                spec
                (checkpointer_for (observed ports) spec.type))
      by_settings (err e) = record { at = λ s h. inl h }
      by_settings (ok spec) = record { at = (with_checkpointer spec).at }

  abbrev Loaded : Result Error Session × (W × Trace) → Type 0
  Loaded (r, s) = Clear s

  abbrev restore_body : ℕ → Text → Text → Action (W × Trace) Error Session
  restore_body rounds id token = load_settled (observed ports) rounds id token >>= λ sess.
      if not (is_snapshot sess) then pure sess else restore_snapshot (observed ports) id token sess

  restore_body-Runs :
      (rounds : ℕ) (id token : Text) → Runs Clear Ended (restore_body rounds id token)
  restore_body-Runs rounds id token =
      Runs-bind Loaded (record { at = λ s h. (load_settled-Clear ports rounds id token).at s h })
        (λ e v h. inl h)
        λ sess.
          Runs-if (not (is_snapshot sess)) (λ live. record { at = λ s h. inl h })
            λ frozen. restore_snapshot-Runs id token sess

  -- The restore held its lock until the world `v`, where `t` was noted of it: its final swap was answered by an
  -- error and the record could not tell, or the record took the pods over and the heartbeat had failed.
  pub record Undecided (id : Text) (e : Error) (s : W × Trace) : Type 0 where
    pub token : Text
    pub v : W
    pub t : Trace
    pub noted : s.1 ≡ unlocks token ∷ t
    pub unlocked : s.0 ≡ (ports.store.unlock id token v).1
    pub kept : (answer_lost t ≡ true) ⊎ ((taken_over t ≡ true) × (ports.renewal_err v ≡ some e))

  pub Unwound : Text → Error → W × Trace → Type 0
  Unwound id e s = (cleaned [] s.1 ≡ true) ⊎ Undecided id e s

  unlocked-Unwound :
      (id token : Text) (e : Error) (r : Result Error Session) (v : W) (t : Trace)
      → Ended (r, (v, t))
      → with_renewal r (ports.renewal_err v) ≡ err e
      → Unwound id e ((ports.store.unlock id token v).1, unlocks token ∷ t)
  unfolding Unwound
  unlocked-Unwound id token e (ok sess) v t (inl clear) h = inl (clear (unlocks token ∷ []))
  unlocked-Unwound id token e (err c) v t (inl clear) h = inl (clear (unlocks token ∷ []))
  unlocked-Unwound id token e (err c) v t (inr lost) h =
      inr (record { token = token; v = v; t = t; noted = refl; unlocked = refl; kept = inl lost })
  unlocked-Unwound id token e (ok sess) v t (inr taken) h = inr (record {
    token = token;
    v = v;
    t = t;
    noted = refl;
    unlocked = refl;
    kept = inr (taken, failed_renewal (ports.renewal_err v) h);
  })
    where
      failed_renewal : (o : Option Error) → with_renewal (ok sess) o ≡ err e → o ≡ some e
      failed_renewal o h = ground (arith, h)

-- A `Restore` that fails, whether of a frozen session or with the recovery of an interrupted freeze before it, asked
-- the orchestrator, for every set of pods that it had started, to stop the whole set. There are two exceptions: its final
-- swap was answered by an error, and then the record could not be read or understood; or the record had taken the
-- pods over, and the error is the one that the heartbeat of the lock reported as the lock was given back.
pub restore-cleaned :
    {W : Type 0} (ports : Ports W) (rounds : ℕ) (id : Text) (w : W) (e : Error) (s : W × Trace)
    → restore (observed ports) rounds id (w, []) ≡ (err e, s)
    → Unwound ports id e s
unfolding restore locked unlock_best_effort
restore-cleaned ports rounds id w e s h = elim (run-cases (ports.new_id) w) [
  | inr (c, v, f) ↦ unfold Unwound in inl (ground (arith, h, f))
  | inl (token, v, f) ↦ elim (run-cases (ports.store.lock id token) v) [
    | inr (c, u, g) ↦ unfold Unwound in inl (ground (arith, h, f, g))
    | inl (t, u, g) ↦
        elim (run-cases (restore_body ports rounds id token) (u, locks token true ∷ [])) [
          | inr (c, (x, l), k) ↦ subst (Unwound ports id e) (ground (arith, h, f, g, k)) (
              unlocked-Unwound ports id token e (err c) x l
                (subst (λ r. Ended ports r) k
                  ((restore_body-Runs ports rounds id token).at _ λ later. refl))
                (ground (arith, h, f, g, k)))
          | inl (sess, (x, l), k) ↦ subst (Unwound ports id e) (ground (arith, h, f, g, k)) (
              unlocked-Unwound ports id token e (ok sess) x l
                (subst (λ r. Ended ports r) k
                  ((restore_body-Runs ports rounds id token).at _ λ later. refl))
                (ground (arith, h, f, g, k)))
        ]
  ]
]
