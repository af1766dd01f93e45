-- ===== src/Service/Slots.antt =====
-- control-plane/internal/service/manager.go: the login slots of a session's auth pool.
use session_platform.Prelude.{
  ℕ, Bool, true, ◌&&◌, Option, none, some, Text, is_empty, Action, pure, raise, handle, ignore,
  ◌>>=◌, if◌then◌else◌,
}
use session_platform.Session.Errors.{Error, is, not_found}
use session_platform.Session.Types.{snapshot, state_eq, WorkloadType}
use session_platform.Session.Record.{Session}
use session_platform.Service.Ports.{Ports, AuthPool}

module _ {W : Type 0} (ports : Ports W) where
  unfoldable pub stale_auth_holder : Text → Action W Error Bool
  stale_auth_holder holder =
      handle (ports.store.get holder) (λ e. if is not_found e then pure true else raise e)
        λ s. pure (state_eq s.state snapshot && is_empty s.pod)

  abbrev pub acquire_from : Text → Option (AuthPool W) → Action W Error (Option ℕ)
  acquire_from id none = pure none
  acquire_from id (some pool) = do slot ← pool.acquire id stale_auth_holder; pure (some slot)

  unfoldable pub acquire_auth_slot : WorkloadType → Text → Action W Error (Option ℕ)
  acquire_auth_slot workload id = acquire_from id (ports.auth_pools workload)

  -- Unknown is `none`: no pool, no pod, or an agent that does not answer.
  unfoldable pub auth_slot_signed_in : Session → Action W Error (Option Bool)
  auth_slot_signed_in s = elim (ports.auth_pools s.workload_type) [
    | none ↦ pure none
    | some pool ↦ if is_empty s.pod then pure none else elim ports.agent.auth_slot_signed_in [
      | none ↦ pure none
      | some ask ↦ handle (ask s.pod) (λ e. pure none) λ signed_in. pure (some signed_in)
    ]
  ]

  unfoldable pub release_auth_slot_best_effort :
      WorkloadType → Text → Option Bool → Action W Error Unit
  release_auth_slot_best_effort workload id signed_in = elim (ports.auth_pools workload) [
    | none ↦ pure tt
    | some pool ↦ ignore (pool.release id signed_in)
  ]
