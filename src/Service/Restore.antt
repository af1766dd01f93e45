-- ===== src/Service/Restore.antt =====
-- control-plane/internal/service/manager.go: `Restore`.
use session_platform.Prelude.{
  ℕ, Bool, true, false, not, ◌&&◌, ◌||◌, none, some, Text, text_eq, Result, ok, err, and_then,
  Action, pure, lift, handle, ◌>>=◌, ◌>>◌, if◌then◌else◌,
}
use session_platform.Session.Errors.{Error, is, conflict, not_found, joined}
use session_platform.Session.Types.{WorkloadType, State, state_eq, normalize_stored_workload_type}
use session_platform.Session.Record.{Session}
use session_platform.Pods.{SessionPods, WorkloadSpec, all_pods, names}
use session_platform.Service.Ports.{Ports, Checkpointer}
use session_platform.Service.Slots.{acquire_auth_slot, release_auth_slot_best_effort}
use session_platform.Service.Helpers.{
  check_context, get, checkpointer_for, checkpoint_ref, stop_pods_best_effort, locked,
}
use session_platform.Service.Create.{settings}
use session_platform.Service.Transactions.{is_snapshot, has_transaction}
use session_platform.Service.Snapshot.{load_settled}

-- The record that a completed restore leaves.
abbrev pub restored_session : Session → WorkloadSpec → SessionPods → ℕ → Session
restored_session s spec pods now = record s {
  state = State.active;
  pod = pods.workload.name;
  auxiliary_pods = names pods;
  model = spec.model;
  checkpoint = none;
  last_access = now;
}

abbrev no_checkpoint : Session → Bool
no_checkpoint s = elim s.checkpoint [ none ↦ true | some cp ↦ false ]

-- The stored record shows that the swap went through although its answer was an error.
abbrev pub committed_anyway : Session → SessionPods → Bool
committed_anyway fresh pods =
    state_eq fresh.state State.active
    && (text_eq fresh.pod pods.workload.name
        && (no_checkpoint fresh && not (has_transaction fresh)))

-- A restore's outcome, with whether the session keeps its login slot.
abbrev pub Outcome : Type 0
Outcome = Bool × Result Error Session

-- What is needed of a snapshotted record to restore it.
unfoldable pub restore_settings : Session → Result Error WorkloadSpec
restore_settings s =
    and_then (normalize_stored_workload_type s.workload_type)
      λ workload. settings workload s.model s.plugins s.reasoning_effort

module _ {W : Type 0} (ports : Ports W) where
  -- The swap was refused or its answer lost; the record tells which, if it can be read.
  unfoldable pub settle_failed_swap : Text → SessionPods → Error → Action W Error Outcome
  settle_failed_swap id pods e =
      handle (get ports id)
        (λ g.
          if is conflict e || is not_found g
          then stop_pods_best_effort ports (all_pods pods) >> pure (false, err (joined e g))
          else pure (true, err (joined e g)))
        λ s.
          if committed_anyway s pods
          then pure (true, ok s)
          else stop_pods_best_effort ports (all_pods pods) >> pure (false, err e)

  unfoldable pub commit_restore :
      Text → Text → Session → WorkloadSpec → SessionPods → Action W Error Outcome
  commit_restore id token sess spec pods w = body (restored_session sess spec pods (ports.now w)) w
    where
      body : Session → Action W Error Outcome
      body next =
          handle
            (ports.store.compare_and_swap_session id token State.snapshot sess.snapshot_transaction
              next)
            (settle_failed_swap id pods) λ t. pure (true, ok next)

  -- The archive is applied and the agent reached, with the context checked before, between and after.
  unfoldable pub prepare_restored : Session → Checkpointer W → SessionPods → Action W Error Unit
  prepare_restored sess ckpt pods = do
    check_context ports
    ckpt.restore sess.checkpoint pods.workload
    check_context ports
    ports.orch.reach pods.workload
    check_context ports

  unfoldable pub restore_into_pods :
      Text → Text → Session → Checkpointer W → WorkloadSpec → Action W Error Outcome
  restore_into_pods id token sess ckpt spec =
      handle (ports.orch.restore_into id (checkpoint_ref sess.checkpoint) spec)
        (λ e. pure (false, err e))
        λ pods.
          handle (prepare_restored sess ckpt pods)
            (λ e. stop_pods_best_effort ports (all_pods pods) >> pure (false, err e))
            λ t. commit_restore id token sess spec pods

  -- The deferred release of the slot, unless the session keeps it.
  unfoldable pub conclude : WorkloadType → Text → Outcome → Action W Error Session
  conclude workload id outcome =
      (if outcome.0 then pure tt else release_auth_slot_best_effort ports workload id none)
      >> lift outcome.1

  abbrev pub restore_with :
      Text → Text → Session → WorkloadSpec → Result Error (Checkpointer W) → Action W Error Session
  restore_with id token sess spec enabled = do
    ckpt ← lift enabled
    check_context ports
    slot ← acquire_auth_slot ports spec.type id
    outcome ← restore_into_pods id token sess ckpt (record spec { auth_slot = slot })
    conclude spec.type id outcome

  unfoldable pub restore_snapshot : Text → Text → Session → Action W Error Session
  restore_snapshot id token sess = do
    spec ← lift (restore_settings sess)
    restore_with id token sess spec (checkpointer_for ports spec.type)

  unfoldable pub restore : ℕ → Text → Action W Error Session
  restore rounds id = locked ports id λ token. (do
    sess ← load_settled ports rounds id token
    if not (is_snapshot sess) then pure sess else restore_snapshot id token sess)
