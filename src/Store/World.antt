-- ===== src/Store/World.antt =====
-- A concrete API server for the tests, with room for one ConfigMap and one Lease. Each accepted write moves the
-- clock of its object, which is its resource version.
use session_platform.Prelude.{
  ℕ, suc, ◌<◌, ◌≡◌, refl, ap, sym, subst, ◌⊎◌, inl, inr, Bool, true, false, Option, none, some,
  Text, text_eq, text_eq_sound, ◌==◌, arith, Result, ok, err, if◌then◌else◌,
}
use session_platform.Session.Errors.{ApiError, missing, already_exists, version_conflict, refused}
use session_platform.Kubernetes.{ConfigMap, Lease, Api}
use session_platform.Kubernetes.Versions.{Versioned, Seen, Won, Made, Gone}

pub record Cell (O : Type 0) : Type 0 where
  pub clock : ℕ
  pub object : Option O

abbrev pub World : Type 0
World = Cell ConfigMap × Cell Lease

abbrev LaterCell : {O : Type 0} → Cell O → Cell O → Type 0
LaterCell v w = (v ≡ w) ⊎ (v.clock < w.clock)

abbrev Later : World → World → Type 0
Later v w = LaterCell v.0 w.0 × LaterCell v.1 w.1

-- One write: the clock of one of the objects goes one on.
abbrev Next : World → World → Type 0
Next v w = ((w.0.clock ≡ suc v.0.clock) × (w.1 ≡ v.1)) ⊎ ((w.0 ≡ v.0) × (w.1.clock ≡ suc v.1.clock))

LaterCell-trans : {O : Type 0} (u v w : Cell O) → LaterCell u v → LaterCell v w → LaterCell u w
LaterCell-trans u v w (inl e) g = subst (λ x. LaterCell x w) (sym e) g
LaterCell-trans u v w (inr l) (inl f) = inr (subst (λ (x : Cell _). u.clock < x.clock) f l)
LaterCell-trans u v w (inr l) (inr m) = inr (omega (arith, l, m))

module _ (cm_key lease_key : Text) where
  abbrev cm_at : Cell ConfigMap → Option ConfigMap
  cm_at c = elim c.object [
    | none ↦ none
    | some cm ↦ some (record cm { name = cm_key; resource_version = c.clock })
  ]

  abbrev lease_at : Cell Lease → Option Lease
  lease_at c = elim c.object [
    | none ↦ none
    | some l ↦ some (record l { name = lease_key; resource_version = c.clock })
  ]

  abbrev at_key : {O : Type 0} → Text → Text → Option O → Option O
  at_key name key o = if text_eq name key then o else none

  abbrev config_map : World → Text → Option ConfigMap
  config_map w name = at_key name cm_key (cm_at w.0)

  abbrev lease : World → Text → Option Lease
  lease w name = at_key name lease_key (lease_at w.1)

  abbrev found : {O : Type 0} → Option O → World → Result ApiError O × World
  found none w = (err missing, w)
  found (some o) w = (ok o, w)

  -- The cell after an accepted write.
  abbrev next : {O : Type 0} → Cell O → Option O → Cell O
  next c o = record { clock = suc c.clock; object = o }

  abbrev update_cm : ConfigMap → World → Option ConfigMap → Result ApiError ConfigMap × World
  update_cm cm w none = (err missing, w)
  update_cm cm w (some old) =
      if cm.resource_version == w.0.clock
      then (
        ok (record cm { name = cm_key; resource_version = suc w.0.clock }),
        (next w.0 (some cm), w.1),
      )
      else (err version_conflict, w)

  abbrev delete_cm : ℕ → World → Option ConfigMap → Result ApiError Unit × World
  delete_cm sent w none = (err missing, w)
  delete_cm sent w (some old) =
      if sent == w.0.clock then (ok tt, (next w.0 none, w.1)) else (err version_conflict, w)

  abbrev create_l : Lease → World → Option Lease → Result ApiError Lease × World
  create_l l w (some old) = (err already_exists, w)
  create_l l w none = (
    ok (record l { name = lease_key; resource_version = suc w.1.clock }),
    (w.0, next w.1 (some l)),
  )

  abbrev update_l : Lease → World → Option Lease → Result ApiError Lease × World
  update_l l w none = (err missing, w)
  update_l l w (some old) =
      if l.resource_version == w.1.clock
      then (
        ok (record l { name = lease_key; resource_version = suc w.1.clock }),
        (w.0, next w.1 (some l)),
      )
      else (err version_conflict, w)

  abbrev delete_l : ℕ → World → Option Lease → Result ApiError Unit × World
  delete_l sent w none = (err missing, w)
  delete_l sent w (some old) =
      if sent == w.1.clock then (ok tt, (w.0, next w.1 none)) else (err version_conflict, w)

  abbrev pub server : Api World
  server = record {
    get_config_map = λ name w. found (config_map w name) w;
    list_config_maps = λ key value w. (err (refused 0), w);
    create_config_map = λ cm w. (err (refused 0), w);
    update_config_map = λ cm w. update_cm cm w (config_map w cm.name);
    delete_config_map = λ name sent w. delete_cm sent w (config_map w name);
    get_lease = λ name w. found (lease w name) w;
    list_leases = λ key value w. (err (refused 0), w);
    create_lease = λ l w.
        if text_eq l.name lease_key then create_l l w (lease w l.name) else (err (refused 0), w);
    update_lease = λ l w. update_l l w (lease w l.name);
    delete_lease = λ name sent w. delete_l sent w (lease w name);
    now = λ w. 60_000_000_000;
    ctx_err = λ w. none;
  }

  same_config_map_lem :
      (v w : World) (name : Text) (a b : ConfigMap)
      → Later v w
      → config_map v name ≡ some a
      → config_map w name ≡ some b
      → b.resource_version ≡ a.resource_version
      → b ≡ a
  same_config_map_lem v w name a b l ha hb e = by_cell v.0 w.0 l.0 ha hb
    where
      by_cell :
          (c d : Cell ConfigMap)
          → LaterCell c d
          → at_key name cm_key (cm_at c) ≡ some a
          → at_key name cm_key (cm_at d) ≡ some b
          → b ≡ a
      by_cell c d (inl same) hc hd =
          ground (arith, hc, hd, ap (λ x. at_key name cm_key (cm_at x)) same)
      by_cell c d (inr less) hc hd = ground (arith, hc, hd, less, e)

  same_lease_lem :
      (v w : World) (name : Text) (a b : Lease)
      → Later v w
      → lease v name ≡ some a
      → lease w name ≡ some b
      → b.resource_version ≡ a.resource_version
      → b ≡ a
  same_lease_lem v w name a b l ha hb e = by_cell v.1 w.1 l.1 ha hb
    where
      by_cell :
          (c d : Cell Lease)
          → LaterCell c d
          → at_key name lease_key (lease_at c) ≡ some a
          → at_key name lease_key (lease_at d) ≡ some b
          → b ≡ a
      by_cell c d (inl same) hc hd =
          ground (arith, hc, hd, ap (λ x. at_key name lease_key (lease_at x)) same)
      by_cell c d (inr less) hc hd = ground (arith, hc, hd, less, e)

  same_world : (w : World) → Later w w
  same_world w = (inl refl, inl refl)

  newer_cm : (w : World) (o : Option ConfigMap) → Later w (next w.0 o, w.1)
  newer_cm w o = (inr (omega arith), inl refl)

  newer_lease : (w : World) (o : Option Lease) → Later w (w.0, next w.1 o)
  newer_lease w o = (inl refl, inr (omega arith))

  later-if :
      {A : Type 0} (w : World) (b : Bool) (x y : Result ApiError A × World)
      → Later w x.1
      → Later w y.1
      → Later w (if b then x else y).1
  later-if w true x y hx hy = hx
  later-if w false x y hx hy = hy

  update_cm-later :
      (cm : ConfigMap) (w : World) (o : Option ConfigMap) → Later w (update_cm cm w o).1
  update_cm-later cm w none = same_world w
  update_cm-later cm w (some old) =
      later-if w (cm.resource_version == w.0.clock) _ _ (newer_cm w (some cm)) (same_world w)

  delete_cm-later : (sent : ℕ) (w : World) (o : Option ConfigMap) → Later w (delete_cm sent w o).1
  delete_cm-later sent w none = same_world w
  delete_cm-later sent w (some old) =
      later-if w (sent == w.0.clock) _ _ (newer_cm w none) (same_world w)

  create_l-later : (l : Lease) (w : World) (o : Option Lease) → Later w (create_l l w o).1
  create_l-later l w none = newer_lease w (some l)
  create_l-later l w (some old) = same_world w

  update_l-later : (l : Lease) (w : World) (o : Option Lease) → Later w (update_l l w o).1
  update_l-later l w none = same_world w
  update_l-later l w (some old) =
      later-if w (l.resource_version == w.1.clock) _ _ (newer_lease w (some l)) (same_world w)

  delete_l-later : (sent : ℕ) (w : World) (o : Option Lease) → Later w (delete_l sent w o).1
  delete_l-later sent w none = same_world w
  delete_l-later sent w (some old) =
      later-if w (sent == w.1.clock) _ _ (newer_lease w none) (same_world w)

  found-world : {O : Type 0} (o : Option O) (w : World) → Later w (found o w).1
  found-world none w = same_world w
  found-world (some x) w = same_world w

  found-Seen :
      {O : Type 0} (object : World → Text → Option O) (name : Text) (w w' : World) (x : O)
      → found (object w name) w ≡ (ok x, w')
      → Seen Later object name w w' x
  found-Seen {O} object name w w' x h = record {
    at = w;
    started = same_world w;
    returned = subst (λ v. Later w v) (found_at (object w name) h).1 (same_world w);
    stored = (found_at (object w name) h).0;
  }
    where
      found_at : (o : Option O) → found o w ≡ (ok x, w') → (o ≡ some x) × (w ≡ w')
      found_at none h = cc
      found_at (some y) h = (cc, ap (λ (p : Result ApiError O × World). p.1) h)

  found-missing :
      {O : Type 0} (object : World → Text → Option O) (name : Text) (w w' : World)
      → found (object w name) w ≡ (err missing, w')
      → Gone Later object name w w'
  found-missing {O} object name w w' h = record {
    at = w;
    started = same_world w;
    returned = subst (λ v. Later w v) (absent (object w name) h).1 (same_world w);
    absent = (absent (object w name) h).0;
  }
    where
      absent : (o : Option O) → found o w ≡ (err missing, w') → (o ≡ none) × (w ≡ w')
      absent none h = (refl, ap (λ (p : Result ApiError O × World). p.1) h)
      absent (some y) h = cc

  cm_name-key :
      (w : World) (name : Text) (cm : ConfigMap) → config_map w name ≡ some cm → cm.name ≡ name
  cm_name-key w name cm h = grind (arith, h, text_eq_sound)

  lease_name-key : (w : World) (name : Text) (l : Lease) → lease w name ≡ some l → l.name ≡ name
  lease_name-key w name l h = grind (arith, h, text_eq_sound)

  -- An object that is read has the clock of its cell as its version.
  cm_version :
      (w : World) (name : Text) (cm : ConfigMap)
      → config_map w name ≡ some cm
      → cm.resource_version ≡ w.0.clock
  cm_version w name cm h = ground (arith, h)

  lease_version :
      (w : World) (name : Text) (l : Lease) → lease w name ≡ some l → l.resource_version ≡ w.1.clock
  lease_version w name l h = ground (arith, h)

  update_cm-Won :
      (name : Text) (sent : ℕ) (cm new : ConfigMap) (w w' : World)
      → cm.name ≡ name
      → cm.resource_version ≡ sent
      → update_cm cm w (config_map w cm.name) ≡ (ok new, w')
      → Won Later Next config_map (λ o. o.resource_version) name w w' sent (some new)
        × (new.contents ≡ cm.contents)
  update_cm-Won name sent cm new w w' named version h = by_object (config_map w cm.name) refl h
    where
      by_object :
          (o : Option ConfigMap)
          → config_map w cm.name ≡ o
          → update_cm cm w o ≡ (ok new, w')
          → Won Later Next config_map (λ o. o.resource_version) name w w' sent (some new)
            × (new.contents ≡ cm.contents)
      by_object none e g = cc
      by_object (some old) e g =
          let moved : w' ≡ (next w.0 (some cm), w.1) = ground (arith, g) in
          (
            record {
              at = w;
              next = w';
              old = old;
              started = same_world w;
              happened = subst (λ (v : World). Next w v) (sym moved) (inl (refl, refl));
              returned = same_world w';
              stored = subst (λ n. config_map w n ≡ some old) named e;
              unchanged = ground (arith, g, version, cm_version w cm.name old e);
              left = ground (arith, g, e, named, ap (λ n. text_eq n cm_key) named);
            },
            ground (arith, g),
          )

  delete_cm-Won :
      (name : Text) (sent : ℕ) (w w' : World)
      → delete_cm sent w (config_map w name) ≡ (ok tt, w')
      → Won Later Next config_map (λ o. o.resource_version) name w w' sent none
  delete_cm-Won name sent w w' h = by_object (config_map w name) refl h
    where
      by_object :
          (o : Option ConfigMap)
          → config_map w name ≡ o
          → delete_cm sent w o ≡ (ok tt, w')
          → Won Later Next config_map (λ o. o.resource_version) name w w' sent none
      by_object none e g = cc
      by_object (some old) e g =
          let moved : w' ≡ (next w.0 none, w.1) = ground (arith, g) in
          record {
            at = w;
            next = w';
            old = old;
            started = same_world w;
            happened = subst (λ (v : World). Next w v) (sym moved) (inl (refl, refl));
            returned = same_world w';
            stored = e;
            unchanged = ground (arith, g, cm_version w name old e);
            left = ground (arith, g, e);
          }

  delete_cm-missing :
      (name : Text) (sent : ℕ) (w w' : World)
      → delete_cm sent w (config_map w name) ≡ (err missing, w')
      → Gone Later config_map name w w'
  delete_cm-missing name sent w w' h =
      let same : w ≡ w' = ground (arith, h) in
      record {
        at = w;
        started = same_world w;
        returned = subst (λ v. Later w v) same (same_world w);
        absent = ground (arith, h);
      }

  update_l-Won :
      (name : Text) (sent : ℕ) (l new : Lease) (w w' : World)
      → l.name ≡ name
      → l.resource_version ≡ sent
      → update_l l w (lease w l.name) ≡ (ok new, w')
      → Won Later Next lease (λ o. o.resource_version) name w w' sent (some new)
        × (new.holder_identity ≡ l.holder_identity)
        × (new.renew_time ≡ l.renew_time)
  update_l-Won name sent l new w w' named version h = by_object (lease w l.name) refl h
    where
      by_object :
          (o : Option Lease)
          → lease w l.name ≡ o
          → update_l l w o ≡ (ok new, w')
          → Won Later Next lease (λ o. o.resource_version) name w w' sent (some new)
            × (new.holder_identity ≡ l.holder_identity)
            × (new.renew_time ≡ l.renew_time)
      by_object none e g = cc
      by_object (some old) e g =
          let moved : w' ≡ (w.0, next w.1 (some l)) = ground (arith, g) in
          (
            record {
              at = w;
              next = w';
              old = old;
              started = same_world w;
              happened = subst (λ (v : World). Next w v) (sym moved) (inr (refl, refl));
              returned = same_world w';
              stored = subst (λ n. lease w n ≡ some old) named e;
              unchanged = ground (arith, g, version, lease_version w l.name old e);
              left = ground (arith, g, e, named, ap (λ n. text_eq n lease_key) named);
            },
            ground (arith, g),
            ground (arith, g),
          )

  create_lease-Made :
      (name : Text) (l new : Lease) (w w' : World)
      → l.name ≡ name
      → server.create_lease l w ≡ (ok new, w')
      → Made Later Next lease name w w' new
        × (new.holder_identity ≡ l.holder_identity)
        × (new.renew_time ≡ l.renew_time)
  create_lease-Made name l new w w' named h =
      by_object (lease w l.name) refl (text_eq l.name lease_key) refl h
    where
      by_object :
          (o : Option Lease)
          → lease w l.name ≡ o
          → (b : Bool) → text_eq l.name lease_key ≡ b
          → (if b then create_l l w o else (err (refused 0), w)) ≡ (ok new, w')
          → Made Later Next lease name w w' new
            × (new.holder_identity ≡ l.holder_identity)
            × (new.renew_time ≡ l.renew_time)
      by_object o e false t g = absurd (ground (arith, g))
      by_object (some old) e true t g = absurd (ground (arith, g))
      by_object none e true t g =
          let moved : w' ≡ (w.0, next w.1 (some l)) = ground (arith, g) in
          (
            record {
              at = w;
              next = w';
              started = same_world w;
              happened = subst (λ (v : World). Next w v) (sym moved) (inr (refl, refl));
              returned = same_world w';
              absent = subst (λ n. lease w n ≡ none) named e;
              left = ground (arith, g, t, named, ap (λ n. text_eq n lease_key) named);
            },
            ground (arith, g),
            ground (arith, g),
          )

  pub server_laws : Versioned server
  server_laws = record {
    Later = Later;
    Next = Next;
    later_refl = same_world;
    config_map = config_map;
    lease = lease;
    later_trans =
        λ u v w l m. (LaterCell-trans u.0 v.0 w.0 l.0 m.0, LaterCell-trans u.1 v.1 w.1 l.1 m.1);
    same_config_map = same_config_map_lem;
    same_lease = same_lease_lem;
    get_config_map_lem = λ name w w' cm h. (
      found-Seen config_map name w w' cm h,
      cm_name-key (found-Seen config_map name w w' cm h).at name cm
          (found-Seen config_map name w w' cm h).stored,
    );
    get_config_map_missing = found-missing config_map;
    get_config_map_later = λ name w. found-world (config_map w name) w;
    update_config_map_later = λ cm w. update_cm-later cm w (config_map w cm.name);
    delete_config_map_later = λ name sent w. delete_cm-later sent w (config_map w name);
    delete_config_map_missing = delete_cm-missing;
    get_lease_later = λ name w. found-world (lease w name) w;
    update_lease_later = λ l w. update_l-later l w (lease w l.name);
    delete_lease_later = λ name sent w. delete_l-later sent w (lease w name);
    create_lease_later = λ l w.
        later-if w (text_eq l.name lease_key) _ _ (create_l-later l w (lease w l.name))
          (same_world w);
    create_lease_lem = create_lease-Made;
    get_lease_lem = λ name w w' l h. (
      found-Seen lease name w w' l h,
      lease_name-key (found-Seen lease name w w' l h).at name l
          (found-Seen lease name w w' l h).stored,
    );
    update_config_map_lem = update_cm-Won;
    delete_config_map_lem = delete_cm-Won;
    update_lease_lem = update_l-Won;
  }
