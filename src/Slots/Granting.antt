-- ===== src/Slots/Granting.antt =====
-- control-plane/internal/adapter/k8s/auth_pool.go: what the steps of `Acquire` that write have written.
use session_platform.Prelude.{
  ℕ, ◌≡◌, sym, subst, Bool, true, false, none, List, [], ◌∷◌, ◌++◌, Text, All, arith, Result, ok,
  err, pure, raise, if◌then◌else◌,
}
use session_platform.Prelude.Runs.{Runs, Runs-handle, Runs-from, Anywhere}
use session_platform.Session.Errors.{Error, ApiError}
use session_platform.Kubernetes.{Lease, Api, dispatch}
use session_platform.Slots.Leases.{
  label_auth_pool, auth_slot_lease_name, lease_holder, SlotMap, slot_map,
}
use session_platform.Slots.Pool.{
  Claims, AuthPoolConfig, SlotCandidate, list_leases, renew_slot, claim_slot, ensure_claim, release,
}
use session_platform.Slots.Acquire.{claim_first, with_claim}
use session_platform.Slots.Won.{
  Writes, noting_api, unseen_claims, Granted, Named, NamedCandidate, slot_map-Named,
}

module _ {W : Type 0} where
  -- What the call returns, if it returns a slot.
  abbrev pub Won : Text → Text → Result Error ℕ × (W × Writes) → Type 0
  Won pool id (ok slot, s) = Granted pool id slot s.1
  Won pool id (err e, s) = Unit

  abbrev pub WonIf : Text → Text → ℕ → Result Error Bool × (W × Writes) → Type 0
  WonIf pool id slot (ok true, s) = Granted pool id slot s.1
  WonIf pool id slot (ok false, s) = Unit
  WonIf pool id slot (err e, s) = Unit

  abbrev pub Kept : Text → Text → ℕ → Result Error Unit × (W × Writes) → Type 0
  Kept pool id slot (r, s) = Granted pool id slot s.1

  abbrev pub ListedMap : Text → Result Error SlotMap × (W × Writes) → Type 0
  ListedMap pool (ok m, s) = Named pool m
  ListedMap pool (err e, s) = Unit

module _ {W : Type 0} (k8s : Api W) (claims : Claims W) (namespace : Text) (cfg : AuthPoolConfig)
    (id : Text) where
  pub list_leases-Runs :
      Runs Anywhere
        (ListedMap cfg.pool)
        (list_leases (noting_api k8s) (unseen_claims claims) namespace cfg)
  unfolding list_leases
  list_leases-Runs = record {
    at = λ s h. listed (k8s.list_leases label_auth_pool cfg.pool s.0) s.1;
  }
    where
      listed :
          (r : Result ApiError (List Lease) × W) (t : Writes)
          → ListedMap cfg.pool (
              dispatch r.0
                (λ items. pure (slot_map cfg.pool [] items))
                (λ e. raise (Error.wrapped (Error.api e)))
                (r.1, t))
      listed (ok items, w) t = slot_map-Named cfg.pool [] items tt
      listed (err e, w) t = tt

  pub renew_slot-Runs :
      (lease : Lease) (slot : ℕ)
      → lease.name ≡ auth_slot_lease_name cfg.pool slot
      → lease_holder lease ≡ id
      → Runs Anywhere
          (WonIf cfg.pool id slot)
          (renew_slot (noting_api k8s) (unseen_claims claims) namespace cfg lease)
  unfolding renew_slot lease_holder
  renew_slot-Runs lease slot named held = record { at = λ s h. ground (arith, named, held) }

  claim_slot-Runs :
      (c : SlotCandidate)
      → NamedCandidate cfg.pool c
      → Runs Anywhere
          (WonIf cfg.pool id c.slot)
          (claim_slot (noting_api k8s) (unseen_claims claims) namespace cfg c id)
  unfolding claim_slot
  claim_slot-Runs c named = record { at = λ s h. ground (arith, named) }

  ensure_claim-writes :
      (slot : ℕ) (s : W × Writes)
      → (ensure_claim (noting_api k8s) (unseen_claims claims) namespace cfg slot s).1.1 ≡ s.1
  unfolding ensure_claim
  ensure_claim-writes slot s = ground arith

  pub ensure_claim-Runs :
      (slot : ℕ)
      → Runs
          (λ s. Granted cfg.pool id slot s.1)
          (Kept cfg.pool id slot)
          (ensure_claim (noting_api k8s) (unseen_claims claims) namespace cfg slot)
  ensure_claim-Runs slot = record {
    at = λ s h. subst (Granted cfg.pool id slot) (sym (ensure_claim-writes slot s)) h;
  }

  with_claim-Runs :
      (slot : ℕ)
      → Runs
          (λ s. Granted cfg.pool id slot s.1)
          (Won cfg.pool id)
          (with_claim (noting_api k8s) (unseen_claims claims) namespace cfg slot id)
  with_claim-Runs slot =
      Runs-handle (Kept cfg.pool id slot) (ensure_claim-Runs slot)
        (λ e.
          Runs-handle (λ r. Unit)
            {m = release (noting_api k8s) (unseen_claims claims) namespace cfg id none}
            (record { at = λ s h. tt }) (λ r. record { at = λ s h. tt })
            λ t. record { at = λ s h. tt })
        λ t. record { at = λ s h. h }

  pub claim_first-Runs :
      (cs : List SlotCandidate) (skipped : List Error)
      → All (NamedCandidate cfg.pool) cs
      → Runs Anywhere
          (Won cfg.pool id)
          (claim_first (noting_api k8s) (unseen_claims claims) namespace cfg id cs skipped)
  unfolding claim_first
  claim_first-Runs [] [] named = record { at = λ s h. tt }
  claim_first-Runs [] (e ∷ es) named = record { at = λ s h. tt }
  claim_first-Runs (c ∷ cs) skipped named =
      Runs-handle (WonIf cfg.pool id c.slot) (claim_slot-Runs c named.0)
        (λ e. Runs-from (claim_first-Runs cs (skipped ++ e ∷ []) named.1) λ s h. tt)
        λ won. by_answer won (claim_first-Runs cs skipped named.1)
    where
      by_answer :
          (won : Bool)
          → Runs Anywhere
              (Won cfg.pool id)
              (claim_first (noting_api k8s) (unseen_claims claims) namespace cfg id cs skipped)
          → Runs
              (λ s. WonIf cfg.pool id c.slot (ok won, s))
              (Won cfg.pool id)
              (if won
                then with_claim (noting_api k8s) (unseen_claims claims) namespace cfg c.slot id
                else claim_first
                    (noting_api k8s)
                    (unseen_claims claims)
                    namespace
                    cfg
                    id
                    cs
                    skipped)
      by_answer true rest = with_claim-Runs c.slot
      by_answer false rest = Runs-from rest λ s h. tt
