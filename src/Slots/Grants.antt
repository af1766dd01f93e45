-- ===== src/Slots/Grants.antt =====
-- control-plane/internal/adapter/k8s/auth_pool.go: what a successful `Acquire` has written.
use session_platform.Prelude.{
  ℕ, zero, suc, ◌-◌, ◌≡◌, refl, subst, Bool, true, false, Option, none, some, [], ◌∷◌, ◌++◌, Text,
  All, Result, ok, err, Action, pure, raise, attempt, ◌>>=◌, ◌>>◌, if◌then◌else◌,
}
use session_platform.Prelude.Runs.{Runs, Runs-bind, Runs-from, Anywhere}
use session_platform.Session.Errors.{Error, failed}
use session_platform.Kubernetes.{Lease, Api}
use session_platform.Slots.Leases.{SlotMap, slot_lease, held_slot}
use session_platform.Slots.Pool.{
  Claims, AuthPoolConfig, renew_slot, is_free, ensure_claim, sort_candidates,
}
use session_platform.Slots.Acquire.{
  Judged, never_leased, candidate, judge_slot, judge_slots, lease_free_slot, acquire_round,
  acquire_loop, acquire, judge_verdict,
}
use session_platform.Slots.Pool.{acquire_attempts}
use session_platform.Slots.Won.{
  Writes, noting_api, unseen_claims, Granted, Named, NamedCandidate, slot_lease-name, held_slot-lem,
  All-append, sort_candidates-All,
}
use session_platform.Slots.Granting.{
  Won, WonIf, Kept, ListedMap, list_leases-Runs, renew_slot-Runs, ensure_claim-Runs,
  claim_first-Runs,
}

module _ {W : Type 0} where
  abbrev JudgedAll : Text → Result Error Judged × (W × Writes) → Type 0
  JudgedAll pool (ok judged, s) = All (NamedCandidate pool) judged.0
  JudgedAll pool (err e, s) = Unit

module _ {W : Type 0} (k8s : Api W) (claims : Claims W) (namespace : Text) (cfg : AuthPoolConfig)
    (id : Text) where
  module _ (stale : Option (Text → Action (W × Writes) Error Bool)) (leases : SlotMap)
      (named : Named cfg.pool leases) where
    judge_slot-Runs :
        (slot : ℕ) (before : Judged)
        → All (NamedCandidate cfg.pool) before.0
        → Runs Anywhere (JudgedAll cfg.pool) (
            judge_slot
              (noting_api k8s)
              (unseen_claims claims)
              namespace
              cfg
              stale
              leases
              slot
              before)
    unfolding judge_slot
    judge_slot-Runs slot before all = by_lease (slot_lease slot leases) refl
      where
        by_lease :
            (o : Option Lease)
            → slot_lease slot leases ≡ o
            → Runs Anywhere
                (JudgedAll cfg.pool)
                (elim o as (λ x. Action (W × Writes) Error Judged) [
                  | none ↦ pure (before.0 ++ never_leased slot ∷ [], before.1)
                  | some lease ↦
                      attempt
                        (is_free (noting_api k8s) (unseen_claims claims) namespace cfg stale lease)
                      >>= λ verdict. pure (judge_verdict slot lease before verdict)
                ])
        by_lease none e = record {
          at = λ s h. All-append cfg.pool before.0 (never_leased slot ∷ []) all (tt, tt);
        }
        by_lease (some lease) e = record {
          at = λ s h.
              verdict
                (is_free (noting_api k8s) (unseen_claims claims) namespace cfg stale lease s).0;
        }
          where
            verdict :
                (r : Result Error Bool)
                → All (NamedCandidate cfg.pool) (judge_verdict slot lease before r).0
            verdict (err c) = all
            verdict (ok false) = all
            verdict (ok true) =
                All-append cfg.pool before.0 (candidate slot lease ∷ []) all
                  (slot_lease-name cfg.pool slot leases lease named e, tt)

    judge_slots-Runs :
        (n : ℕ)
        → Runs Anywhere
            (JudgedAll cfg.pool)
            (judge_slots (noting_api k8s) (unseen_claims claims) namespace cfg stale leases n)
    unfolding judge_slots
    judge_slots-Runs zero = record { at = λ s h. tt }
    judge_slots-Runs (suc n) =
        Runs-bind (JudgedAll cfg.pool) (judge_slots-Runs n) (λ e v h. h)
          λ before. record { at = λ s all. (judge_slot-Runs n before all).at s tt }

    lease_free_slot-Runs :
        Runs Anywhere
          (Won cfg.pool id)
          (lease_free_slot (noting_api k8s) (unseen_claims claims) namespace cfg stale id leases)
    unfolding lease_free_slot
    lease_free_slot-Runs =
        Runs-bind (JudgedAll cfg.pool) (judge_slots-Runs cfg.slots) (λ e v h. tt)
          λ judged. record {
            at = λ s all.
                (claim_first-Runs k8s claims namespace cfg id (sort_candidates judged.0) judged.1
                    (sort_candidates-All cfg.pool judged.0 all)).at
                  s tt;
          }

    acquire_round-Runs :
        (again : Action (W × Writes) Error ℕ)
        → Runs Anywhere (Won cfg.pool id) again
        → Runs Anywhere (Won cfg.pool id) (
            acquire_round
              (noting_api k8s)
              (unseen_claims claims)
              namespace
              cfg
              again
              stale
              id
              leases)
    unfolding acquire_round
    acquire_round-Runs again again-Won = by_held (held_slot leases id) refl
      where
        by_held :
            (o : Option (ℕ × Lease))
            → held_slot leases id ≡ o
            → Runs Anywhere (Won cfg.pool id) (elim o as (λ x. Action (W × Writes) Error ℕ) [
              | none ↦
                  lease_free_slot
                    (noting_api k8s)
                    (unseen_claims claims)
                    namespace
                    cfg
                    stale
                    id
                    leases
              | some (slot, lease) ↦
                  renew_slot (noting_api k8s) (unseen_claims claims) namespace cfg lease
                  >>= λ renewed.
                      if renewed
                      then ensure_claim (noting_api k8s) (unseen_claims claims) namespace cfg slot
                        >> pure slot
                      else again
            ])
        by_held none e = lease_free_slot-Runs
        by_held (some (slot, lease)) e =
            Runs-bind (WonIf cfg.pool id slot)
              (renew_slot-Runs k8s claims namespace cfg id lease slot
                (held_slot-lem cfg.pool leases id slot lease named e).0
                (held_slot-lem cfg.pool leases id slot lease named e).1)
              (λ c v h. tt) λ renewed. by_answer renewed
          where
            by_answer :
                (renewed : Bool)
                → Runs
                    (λ s. WonIf cfg.pool id slot (ok renewed, s))
                    (Won cfg.pool id)
                    (if renewed
                      then ensure_claim (noting_api k8s) (unseen_claims claims) namespace cfg slot
                        >> pure slot
                      else again)
            by_answer true =
                Runs-bind (Kept cfg.pool id slot)
                  (ensure_claim-Runs k8s claims namespace cfg id slot) (λ c v h. tt)
                  λ t. record { at = λ s h. h }
            by_answer false = Runs-from again-Won λ s h. tt

  acquire_loop-Runs :
      (left : ℕ) (stale : Option (Text → Action (W × Writes) Error Bool)) (leases : SlotMap)
      → Named cfg.pool leases
      → Runs Anywhere
          (Won cfg.pool id)
          (acquire_loop (noting_api k8s) (unseen_claims claims) namespace cfg left stale id leases)
  unfolding acquire_loop
  acquire_loop-Runs zero stale leases named =
      acquire_round-Runs stale leases named (raise (failed 5)) (record { at = λ s h. tt })
  acquire_loop-Runs (suc left) stale leases named = acquire_round-Runs stale leases named _ (
      Runs-bind (ListedMap cfg.pool) (list_leases-Runs k8s claims namespace cfg id) (λ e v h. tt)
        λ moved. record { at = λ s n. (acquire_loop-Runs left stale moved n).at s tt })

  acquire-Runs :
      (stale : Option (Text → Action (W × Writes) Error Bool))
      → Runs Anywhere
          (Won cfg.pool id)
          (acquire (noting_api k8s) (unseen_claims claims) namespace cfg id stale)
  unfolding acquire
  acquire-Runs stale =
      Runs-bind (ListedMap cfg.pool) (list_leases-Runs k8s claims namespace cfg id) (λ e v h. tt)
        λ leases. record {
          at = λ s n. (acquire_loop-Runs (acquire_attempts - 1) stale leases n).at s tt;
        }

-- When `Acquire` returns a slot, the newest Lease that the API server accepted from it is the one of that
-- very slot, and it names the session as its holder, spaces around the name aside; whatever the server answered before and whatever the
-- stale check did.
pub acquire-Granted :
    {W : Type 0} (k8s : Api W) (claims : Claims W) (namespace : Text) (cfg : AuthPoolConfig)
    (id : Text) (stale : Option (Text → Action (W × Writes) Error Bool)) (w : W) (slot : ℕ)
    (s : W × Writes)
    → acquire (noting_api k8s) (unseen_claims claims) namespace cfg id stale (w, []) ≡ (ok slot, s)
    → Granted cfg.pool id slot s.1
acquire-Granted k8s claims namespace cfg id stale w slot s h =
    subst (Won cfg.pool id) h ((acquire-Runs k8s claims namespace cfg id stale).at (w, []) tt)
