-- ===== src/Slots/Leases.antt =====
-- control-plane/internal/adapter/k8s/auth_pool.go: the Leases of a login pool's slots, as they are listed and read.
-- A Go map from slots is an association list in the order of the slots.
use session_platform.Prelude.{
  ℕ, zero, suc, ◌+◌, ◌*◌, ◌/◌, ◌%◌, ◌^◌, ◌&&◌, ◌==◌, leb, ltb, Option, none, some, List, [], ◌∷◌,
  ◌++◌, Text, codes, text_eq, lookup, if◌then◌else◌, ◌-◌,
}
use session_platform.Session.Models.{trim_space}
use session_platform.Kubernetes.{Lease}
use session_platform.Store.Objects.{label_managed_by, managed_by_value}

abbrev pub label_auth_pool : Text
label_auth_pool = codes "session-platform.dev/auth-pool"

abbrev pub label_auth_slot : Text
label_auth_slot = codes "session-platform.dev/auth-slot"

abbrev pub annotation_auth_state : Text
annotation_auth_state = codes "session-platform.dev/auth-state"

abbrev pub auth_state_signed_in : Text
auth_state_signed_in = codes "signed-in"

abbrev pub auth_state_signed_out : Text
auth_state_signed_out = codes "signed-out"

-- `strconv.Itoa` of a natural number; as many steps as the number are enough.
abbrev digits : ℕ → ℕ → Text → Text
digits zero n acc = acc
digits (suc steps) n acc =
    let next = (b'0' + n % 10) ∷ acc in
    let rest = digits steps (n / 10) next in if ltb n 10 then next else rest

unfoldable pub itoa : ℕ → Text
itoa n = digits (suc n) n []

-- The digits of `strconv.Atoi`, none at another character.
abbrev parse_digits : ℕ → Text → Option ℕ
parse_digits n [] = some n
parse_digits n (c ∷ s) =
    let rest = parse_digits (n * 10 + (c - b'0')) s in
    if leb b'0' c && leb c b'9' then rest else none

abbrev pub parse_magnitude : Text → Option ℕ
parse_magnitude [] = none
parse_magnitude (c ∷ s) = parse_digits 0 (c ∷ s)

abbrev in_range : Option ℕ → Option ℕ
in_range none = none
in_range (some n) = if ltb n (2 ^ 63) then some n else none

-- Below zero there is only minus zero.
abbrev negated : Option ℕ → Option ℕ
negated (some zero) = some zero
negated _ = none

-- `strconv.Atoi` where it gives a slot: no error, and not below zero.
unfoldable pub slot_number : Text → Option ℕ
slot_number [] = none
slot_number (c ∷ s) =
    if c == b'-'
    then negated (parse_magnitude s)
    else if c == b'+'
    then in_range (parse_magnitude s)
    else in_range (parse_magnitude (c ∷ s))

unfoldable pub auth_slot_lease_name : Text → ℕ → Text
auth_slot_lease_name pool slot = pool ++ codes "-auth-" ++ itoa slot

unfoldable pub auth_slot_claim_name : Text → Text → ℕ → Text
auth_slot_claim_name namespace pool slot = namespace ++ codes "-" ++ auth_slot_lease_name pool slot

unfoldable pub labels : Text → ℕ → List (Text × Text)
labels pool slot =
    (label_auth_pool, pool)
    ∷ (label_auth_slot, itoa slot)
    ∷ (label_managed_by, managed_by_value)
    ∷ []

abbrev pub or_empty : Option Text → Text
or_empty none = []
or_empty (some t) = t

unfoldable pub lease_holder : Lease → Text
lease_holder lease = elim lease.holder_identity [ none ↦ [] | some h ↦ trim_space h ]

unfoldable pub auth_state_rank : Lease → ℕ
auth_state_rank lease =
    let state = or_empty (lookup annotation_auth_state lease.annotations) in
    if text_eq state auth_state_signed_in
    then 0
    else if text_eq state auth_state_signed_out
    then 2
    else 1

abbrev pub SlotMap : Type 0
SlotMap = List (ℕ × Lease)

-- `out[slot] = lease`.
unfoldable pub put_slot : ℕ → Lease → SlotMap → SlotMap
put_slot slot lease [] = (slot, lease) ∷ []
put_slot slot lease ((s, l) ∷ m) =
    let rest = put_slot slot lease m in
    if slot == s
    then (slot, lease) ∷ m
    else if ltb slot s
    then (slot, lease) ∷ (s, l) ∷ m
    else (s, l) ∷ rest

unfoldable pub slot_lease : ℕ → SlotMap → Option Lease
slot_lease slot [] = none
slot_lease slot ((s, l) ∷ m) = let rest = slot_lease slot m in if slot == s then some l else rest

-- The slot that a listed Lease stands for, if it is one of the pool's.
unfoldable pub lease_slot : Text → Lease → Option ℕ
lease_slot pool lease = elim (slot_number (or_empty (lookup label_auth_slot lease.labels))) [
  | none ↦ none
  | some slot ↦ if text_eq lease.name (auth_slot_lease_name pool slot) then some slot else none
]

abbrev pub add_lease : Text → SlotMap → Lease → SlotMap
add_lease pool m lease = elim (lease_slot pool lease) [
  | none ↦ m
  | some slot ↦ put_slot slot lease m
]

-- The loop of `leases` over the listed items.
unfoldable pub slot_map : Text → SlotMap → List Lease → SlotMap
slot_map pool m [] = m
slot_map pool m (lease ∷ rest) = slot_map pool (add_lease pool m lease) rest

-- The first slot in ascending order whose Lease the session holds.
unfoldable pub held_slot : SlotMap → Text → Option (ℕ × Lease)
held_slot [] id = none
held_slot ((s, l) ∷ m) id =
    let rest = held_slot m id in if text_eq (lease_holder l) id then some (s, l) else rest
