-- ===== src/Slots/Acquire.antt =====
-- control-plane/internal/adapter/k8s/auth_pool.go: `Acquire`.
use session_platform.Prelude.{
  ℕ, zero, suc, ◌-◌, Bool, true, false, Option, none, some, List, [], ◌∷◌, ◌++◌, Text, Result, ok,
  err, Action, pure, raise, attempt, handle, ◌>>=◌, ◌>>◌, if◌then◌else◌,
}
use session_platform.Session.Errors.{Error, sentinel, failed, wrapped, joined, auth_pool_exhausted}
use session_platform.Kubernetes.{Lease, Api}
use session_platform.Slots.Leases.{auth_state_rank, SlotMap, slot_lease, held_slot}
use session_platform.Slots.Pool.{
  Claims, AuthPoolConfig, SlotCandidate, acquire_attempts, sort_candidates, join_all, list_leases,
  renew_slot, is_free, claim_slot, ensure_claim, release,
}

-- The candidates so far and the errors of the slots that were passed over, each in order.
abbrev pub Judged : Type 0
Judged = List SlotCandidate × List Error

abbrev pub never_leased : ℕ → SlotCandidate
never_leased slot = record { slot = slot; rank = 2; lease = none }

abbrev pub candidate : ℕ → Lease → SlotCandidate
candidate slot lease = record { slot = slot; rank = auth_state_rank lease; lease = some lease }

-- The verdict on one slot, added to those before.
abbrev pub judge_verdict : ℕ → Lease → Judged → Result Error Bool → Judged
judge_verdict slot lease (cs, skipped) (err e) = (cs, skipped ++ wrapped e ∷ [])
judge_verdict slot lease (cs, skipped) (ok false) = (cs, skipped)
judge_verdict slot lease (cs, skipped) (ok true) = (cs ++ candidate slot lease ∷ [], skipped)

module _ {W : Type 0} (k8s : Api W) (claims : Claims W) (namespace : Text)
    (cfg : AuthPoolConfig) where
  unfoldable pub judge_slot :
      Option (Text → Action W Error Bool) → SlotMap → ℕ → Judged → Action W Error Judged
  judge_slot stale leases slot before = elim (slot_lease slot leases) [
    | none ↦ pure (before.0 ++ never_leased slot ∷ [], before.1)
    | some lease ↦ (do
      verdict ← attempt (is_free k8s claims namespace cfg stale lease)
      pure (judge_verdict slot lease before verdict))
  ]

  -- The slots below the given number, in ascending order.
  unfoldable pub judge_slots :
      Option (Text → Action W Error Bool) → SlotMap → ℕ → Action W Error Judged
  judge_slots stale leases zero = pure ([], [])
  judge_slots stale leases (suc n) = do
    before ← judge_slots stale leases n
    judge_slot stale leases n before

  abbrev none_left : List Error → Action W Error ℕ
  none_left [] = raise (wrapped (sentinel auth_pool_exhausted))
  none_left (e ∷ es) = raise (wrapped (join_all e es))

  -- A slot whose claim could not be made is given back.
  abbrev pub with_claim : ℕ → Text → Action W Error ℕ
  with_claim slot id =
      handle (ensure_claim k8s claims namespace cfg slot)
        (λ e.
          handle (release k8s claims namespace cfg id none) (λ r. raise (joined e r)) λ t. raise e)
        λ t. pure slot

  unfoldable pub claim_first : Text → List SlotCandidate → List Error → Action W Error ℕ
  claim_first id [] skipped = none_left skipped
  claim_first id (c ∷ cs) skipped =
      handle (claim_slot k8s claims namespace cfg c id) (λ e. claim_first id cs (skipped ++ e ∷ []))
        λ won. if won then with_claim c.slot id else claim_first id cs skipped

  unfoldable pub lease_free_slot :
      Option (Text → Action W Error Bool) → Text → SlotMap → Action W Error ℕ
  lease_free_slot stale id leases = do
    judged ← judge_slots stale leases cfg.slots
    claim_first id (sort_candidates judged.0) judged.1

  -- One attempt; the first argument is what follows when the held Lease moved.
  unfoldable pub acquire_round :
      Action W Error ℕ → Option (Text → Action W Error Bool) → Text → SlotMap → Action W Error ℕ
  acquire_round again stale id leases = elim (held_slot leases id) [
    | none ↦ lease_free_slot stale id leases
    | some (slot, lease) ↦ (do
      renewed ← renew_slot k8s claims namespace cfg lease
      if renewed then ensure_claim k8s claims namespace cfg slot >> pure slot else again)
  ]

  -- The first argument counts the attempts after this one.
  unfoldable pub acquire_loop :
      ℕ → Option (Text → Action W Error Bool) → Text → SlotMap → Action W Error ℕ
  acquire_loop zero stale id leases = acquire_round (raise (failed 5)) stale id leases
  acquire_loop (suc left) stale id leases =
      acquire_round
        (do moved ← list_leases k8s claims namespace cfg; acquire_loop left stale id moved) stale id
        leases

  unfoldable pub acquire : Text → Option (Text → Action W Error Bool) → Action W Error ℕ
  acquire id stale = do
    leases ← list_leases k8s claims namespace cfg
    acquire_loop (acquire_attempts - 1) stale id leases
