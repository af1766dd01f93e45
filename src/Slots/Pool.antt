-- ===== src/Slots/Pool.antt =====
-- control-plane/internal/adapter/k8s/auth_pool.go: leasing a slot to a session and giving it back.
use session_platform.Prelude.{
  ℕ, zero, suc, ◌+◌, Bool, true, false, not, ◌&&◌, ◌||◌, ◌==◌, ltb, Option, none, some, List, [],
  ◌∷◌, Text, is_empty, insert, Action, pure, raise, ◌>>=◌, ◌>>◌, if◌then◌else◌,
}
use session_platform.Session.Errors.{Error, ApiError, api, failed, wrapped, joined}
use session_platform.Kubernetes.{Lease, Api, is_not_found, is_already_exists, is_conflict, respond}
use session_platform.Slots.Leases.{
  label_auth_pool, label_auth_slot, annotation_auth_state, auth_state_signed_in,
  auth_state_signed_out, itoa, auth_slot_lease_name, auth_slot_claim_name, labels, or_empty,
  lease_holder, SlotMap, slot_map, held_slot,
}
use session_platform.Prelude.{lookup, text_eq}

-- The claim that `ensureClaim` asks for; `storage_class` is none for the cluster's default.
pub record Claim : Type 0 where
  pub name : Text
  pub namespace : Text
  pub labels : List (Text × Text)
  pub storage_size : Text
  pub storage_class : Option Text

-- The calls on volume claims; what a read returns is not looked at.
pub record Claims (W : Type 0) : Type 0 where
  pub get_claim : Text → Action W ApiError Unit
  pub create_claim : Claim → Action W ApiError Unit

pub record AuthPoolConfig : Type 0 where
  pub pool : Text
  pub slots : ℕ
  pub storage_class : Text
  pub storage_size : Text
  pub reclaim_grace : ℕ

pub record SlotCandidate : Type 0 where
  pub slot : ℕ
  pub rank : ℕ
  pub lease : Option Lease

abbrev pub acquire_attempts : ℕ
acquire_attempts = 5

abbrev pub release_attempts : ℕ
release_attempts = 5

-- `sort.SliceStable` by rank, then by slot.
abbrev pub precedes : SlotCandidate → SlotCandidate → Bool
precedes a b = if not (a.rank == b.rank) then ltb a.rank b.rank else ltb a.slot b.slot

unfoldable pub insert_candidate : SlotCandidate → List SlotCandidate → List SlotCandidate
insert_candidate c [] = c ∷ []
insert_candidate c (d ∷ ds) =
    let rest = insert_candidate c ds in if precedes d c then d ∷ rest else c ∷ d ∷ ds

unfoldable pub sort_candidates : List SlotCandidate → List SlotCandidate
sort_candidates [] = []
sort_candidates (c ∷ cs) = insert_candidate c (sort_candidates cs)

abbrev pub join_all : Error → List Error → Error
join_all e [] = e
join_all e (f ∷ fs) = joined e (join_all f fs)

module _ {W : Type 0} (k8s : Api W) (claims : Claims W) (namespace : Text)
    (cfg : AuthPoolConfig) where
  unfoldable pub list_leases : Action W Error SlotMap
  list_leases =
      respond (k8s.list_leases label_auth_pool cfg.pool)
        (λ items. pure (slot_map cfg.pool [] items)) λ e. raise (wrapped (api e))

  -- False when the Lease moved meanwhile.
  unfoldable pub renew_slot : Lease → Action W Error Bool
  renew_slot lease w =
      respond
        (k8s.update_lease
          (record lease { acquire_time = some (k8s.now w); renew_time = some (k8s.now w) }))
        (λ l. pure true)
        (λ e. if is_conflict e || is_not_found e then pure false else raise (wrapped (api e))) w

  abbrev pub renewed_at : Lease → ℕ
  renewed_at lease = elim lease.renew_time [ none ↦ lease.creation_timestamp | some t ↦ t ]

  -- `now - renewed < grace`; the difference may be below zero.
  abbrev pub within_grace : Lease → ℕ → Bool
  within_grace lease now = ltb now (renewed_at lease + cfg.reclaim_grace)

  unfoldable pub is_free : Option (Text → Action W Error Bool) → Lease → Action W Error Bool
  is_free stale lease w =
      (if is_empty (lease_holder lease) then pure true else elim stale [
        | none ↦ pure false
        | some ask ↦ if within_grace lease (k8s.now w) then pure false else ask (lease_holder lease)
      ])
        w

  abbrev has_labels : Lease → ℕ → Bool
  has_labels lease slot =
      text_eq (or_empty (lookup label_auth_pool lease.labels)) cfg.pool
      && text_eq (or_empty (lookup label_auth_slot lease.labels)) (itoa slot)

  unfoldable pub foreign_lease : ℕ → Action W Error Unit
  foreign_lease slot =
      respond (k8s.get_lease (auth_slot_lease_name cfg.pool slot))
        (λ lease. if has_labels lease slot then pure tt else raise (failed 2))
        λ e. if is_not_found e then pure tt else raise (wrapped (api e))

  abbrev new_lease : ℕ → Text → ℕ → Lease
  new_lease slot holder now = record {
    name = auth_slot_lease_name cfg.pool slot;
    labels = labels cfg.pool slot;
    annotations = [];
    creation_timestamp = 0;
    holder_identity = some holder;
    lease_duration_seconds = none;
    acquire_time = some now;
    renew_time = some now;
    resource_version = 0;
  }

  -- False when another path took the slot.
  unfoldable pub claim_slot : SlotCandidate → Text → Action W Error Bool
  claim_slot c id w = elim c.lease [
    | none ↦
        respond (k8s.create_lease (new_lease c.slot id (k8s.now w))) (λ l. pure true)
          (λ e.
            if is_already_exists e then (do foreign_lease c.slot; pure false) else raise (api e))
          w
    | some lease ↦
        respond
          (k8s.update_lease (record lease {
            holder_identity = some id;
            acquire_time = some (k8s.now w);
            renew_time = some (k8s.now w);
          }))
          (λ l. pure true) (λ e. if is_conflict e then pure false else raise (api e)) w
  ]

  abbrev storage_class : Text → Option Text
  storage_class name = if is_empty name then none else some name

  abbrev claim_for : ℕ → Claim
  claim_for slot = record {
    name = auth_slot_claim_name namespace cfg.pool slot;
    namespace = namespace;
    labels = labels cfg.pool slot;
    storage_size = cfg.storage_size;
    storage_class = storage_class cfg.storage_class;
  }

  unfoldable pub ensure_claim : ℕ → Action W Error Unit
  ensure_claim slot =
      respond (claims.get_claim (auth_slot_claim_name namespace cfg.pool slot)) pure λ e.
        if not (is_not_found e)
        then raise (wrapped (api e))
        else respond (claims.create_claim (claim_for slot)) pure
            λ c. if is_already_exists c then pure tt else raise (wrapped (api c))

  abbrev auth_state : Bool → Text
  auth_state signed_in = if signed_in then auth_state_signed_in else auth_state_signed_out

  -- The Lease that a release writes.
  unfoldable pub freed : Lease → Option Bool → ℕ → Lease
  freed lease signed_in now = elim signed_in [
    | none ↦ record lease { holder_identity = none; renew_time = some now }
    | some b ↦ record lease {
      holder_identity = none;
      renew_time = some now;
      annotations = insert annotation_auth_state (auth_state b) lease.annotations;
    }
  ]

  -- `left` counts the attempts that are left.
  unfoldable pub release_loop : ℕ → Text → Option Bool → Action W Error Unit
  release_loop zero id signed_in = raise (failed 4)
  release_loop (suc left) id signed_in = do
    leases ← list_leases
    elim (held_slot leases id) [
      | none ↦ pure tt
      | some (slot, lease) ↦ λ w.
          respond (k8s.update_lease (freed lease signed_in (k8s.now w))) (λ l. pure tt)
            (λ e. if is_conflict e then release_loop left id signed_in else raise (api e)) w
    ]

  unfoldable pub release : Text → Option Bool → Action W Error Unit
  unfolding release_loop
  release = release_loop release_attempts
