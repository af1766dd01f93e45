-- ===== src/Slots/Won.antt =====
-- control-plane/internal/adapter/k8s/auth_pool.go: Leases and candidates that carry the name of their slot; an
-- API that notes the accepted Leases.
use session_platform.Prelude.{
  ℕ, ◌≡◌, refl, ap, ◌⊎◌, Bool, true, false, ◌==◌, Option, none, some, List, [], ◌∷◌, ◌++◌, Text,
  text_eq_sound, ltb, All, arith, Result, ok, err, Action, if◌then◌else◌,
}
use session_platform.Session.Errors.{ApiError}
use session_platform.Kubernetes.{Lease, Api}
use session_platform.Slots.Leases.{
  auth_slot_lease_name, lease_holder, lease_slot, SlotMap, put_slot, slot_lease, slot_map,
  add_lease, held_slot,
}
use session_platform.Slots.Pool.{Claims, SlotCandidate, insert_candidate, sort_candidates, precedes}

-- The Leases that were written, newest first.
abbrev pub Writes : Type 0
Writes = List Lease

abbrev entered : Lease → Result ApiError Lease → Writes → Writes
entered l (ok answer) t = l ∷ t
entered l (err e) t = t

module _ {W : Type 0} where
  abbrev pub unseen : {E A : Type 0} → Action W E A → Action (W × Writes) E A
  unseen m s = let (r, w) = m s.0 in (r, (w, s.1))

  abbrev noted : Lease → Action W ApiError Lease → Action (W × Writes) ApiError Lease
  noted l m s = let (r, w) = m s.0 in (r, (w, entered l r s.1))

  -- An API that notes each Lease that it accepts.
  abbrev pub noting_api : Api W → Api (W × Writes)
  noting_api k8s = record {
    get_config_map = λ name. unseen (k8s.get_config_map name);
    list_config_maps = λ key value. unseen (k8s.list_config_maps key value);
    create_config_map = λ cm. unseen (k8s.create_config_map cm);
    update_config_map = λ cm. unseen (k8s.update_config_map cm);
    delete_config_map = λ name sent. unseen (k8s.delete_config_map name sent);
    get_lease = λ name. unseen (k8s.get_lease name);
    list_leases = λ key value. unseen (k8s.list_leases key value);
    create_lease = λ l. noted l (k8s.create_lease l);
    update_lease = λ l. noted l (k8s.update_lease l);
    delete_lease = λ name sent. unseen (k8s.delete_lease name sent);
    now = λ s. k8s.now s.0;
    ctx_err = λ s. k8s.ctx_err s.0;
  }

  abbrev pub unseen_claims : Claims W → Claims (W × Writes)
  unseen_claims claims = record {
    get_claim = λ name. unseen (claims.get_claim name);
    create_claim = λ c. unseen (claims.create_claim c);
  }

-- The newest write gives the slot's Lease to the session.
abbrev pub Granted : Text → Text → ℕ → Writes → Type 0
Granted pool id slot [] = ⊥
Granted pool id slot (l ∷ t) =
    (l.name ≡ auth_slot_lease_name pool slot)
    × ((l.holder_identity ≡ some id) ⊎ (lease_holder l ≡ id))

module _ (pool : Text) where
  -- Each Lease of the map has the name of its slot.
  abbrev pub Named : SlotMap → Type 0
  Named = All (λ (e : ℕ × Lease). e.1.name ≡ auth_slot_lease_name pool e.0)

  put_slot-Named :
      (slot : ℕ) (lease : Lease) (m : SlotMap)
      → lease.name ≡ auth_slot_lease_name pool slot
      → Named m
      → Named (put_slot slot lease m)
  unfolding put_slot
  put_slot-Named slot lease [] e h = (e, tt)
  put_slot-Named slot lease ((s, l) ∷ m) e h =
      by_test (put_slot-Named slot lease m e h.1) (slot == s) (ltb slot s)
    where
      by_test :
          Named (put_slot slot lease m)
          → (b c : Bool)
          → Named (
              if b
              then (slot, lease) ∷ m
              else if c
              then (slot, lease) ∷ (s, l) ∷ m
              else (s, l) ∷ put_slot slot lease m)
      by_test rest true c = (e, h.1)
      by_test rest false true = (e, h)
      by_test rest false false = (h.0, rest)

  lease_slot-name :
      (lease : Lease) (slot : ℕ)
      → lease_slot pool lease ≡ some slot
      → lease.name ≡ auth_slot_lease_name pool slot
  unfolding lease_slot
  lease_slot-name lease slot h = grind (arith, h, text_eq_sound)

  pub slot_map-Named : (m : SlotMap) (ls : List Lease) → Named m → Named (slot_map pool m ls)
  unfolding slot_map
  slot_map-Named m [] h = h
  slot_map-Named m (l ∷ ls) h =
      slot_map-Named (add_lease pool m l) ls (added (lease_slot pool l) refl)
    where
      added :
          (o : Option ℕ)
          → lease_slot pool l ≡ o
          → Named (elim o [ none ↦ m | some slot ↦ put_slot slot l m ])
      added none e = h
      added (some slot) e = put_slot-Named slot l m (lease_slot-name l slot e) h

  pub slot_lease-name :
      (slot : ℕ) (m : SlotMap) (l : Lease)
      → Named m
      → slot_lease slot m ≡ some l
      → l.name ≡ auth_slot_lease_name pool slot
  unfolding slot_lease
  slot_lease-name slot [] l n h = cc
  slot_lease-name slot ((s, x) ∷ m) l n h =
      ground (
        arith,
        h,
        n,
        slot_lease-name slot m l n.1,
        ap (auth_slot_lease_name pool) {x = s} {y = slot},
      )

  pub held_slot-lem :
      (m : SlotMap) (id : Text) (slot : ℕ) (l : Lease)
      → Named m
      → held_slot m id ≡ some (slot, l)
      → (l.name ≡ auth_slot_lease_name pool slot) × (lease_holder l ≡ id)
  unfolding held_slot
  held_slot-lem [] id slot l n h = cc
  held_slot-lem ((s, x) ∷ m) id slot l n h =
      grind (arith, h, n, held_slot-lem m id slot l n.1, text_eq_sound)

  abbrev pub NamedLease : ℕ → Option Lease → Type 0
  NamedLease slot none = Unit
  NamedLease slot (some l) = l.name ≡ auth_slot_lease_name pool slot

  -- The Lease of a candidate has the name of its slot.
  abbrev pub NamedCandidate : SlotCandidate → Type 0
  NamedCandidate c = NamedLease c.slot c.lease

  pub All-append :
      (cs ds : List SlotCandidate)
      → All NamedCandidate cs
      → All NamedCandidate ds
      → All NamedCandidate (cs ++ ds)
  All-append [] ds h k = k
  All-append (c ∷ cs) ds h k = (h.0, All-append cs ds h.1 k)

  insert_candidate-All :
      (c : SlotCandidate) (cs : List SlotCandidate)
      → NamedCandidate c
      → All NamedCandidate cs
      → All NamedCandidate (insert_candidate c cs)
  unfolding insert_candidate
  insert_candidate-All c [] h k = (h, tt)
  insert_candidate-All c (d ∷ ds) h k = by_test (insert_candidate-All c ds h k.1) (precedes d c)
    where
      by_test :
          All NamedCandidate (insert_candidate c ds)
          → (b : Bool) → All NamedCandidate (if b then d ∷ insert_candidate c ds else c ∷ d ∷ ds)
      by_test rest true = (k.0, rest)
      by_test rest false = (h, k)

  pub sort_candidates-All :
      (cs : List SlotCandidate) → All NamedCandidate cs → All NamedCandidate (sort_candidates cs)
  unfolding sort_candidates
  sort_candidates-All [] h = tt
  sort_candidates-All (c ∷ cs) h =
      insert_candidate-All c (sort_candidates cs) h.0 (sort_candidates-All cs h.1)
