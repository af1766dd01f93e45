-- ===== src/Service/Transactions.antt =====
-- control-plane/internal/service/manager.go: the durable transaction of a freeze (preparing, then
-- committing, then gone), and the ways to undo or finish one.
use session_platform.Prelude.{
  Bool, true, false, not, ◌&&◌, Option, none, some, [], Text, Action, pure, raise, handle, ◌>>=◌,
  ◌>>◌, if◌then◌else◌,
}
use session_platform.Session.Errors.{Error, sentinel, conflict, invalid_state, is, failed, joined}
use session_platform.Session.Types.{WorkloadType, state_eq, Phase, preparing, committing, snapshot}
use session_platform.Session.Record.{Session, Checkpoint, SnapshotTransaction}
use session_platform.Pods.{named}
use session_platform.Service.Ports.{Ports, Checkpointer}
use session_platform.Service.Helpers.{check_context, check_deadline, get}

abbrev pub is_snapshot : Session → Bool
is_snapshot s = state_eq s.state snapshot

abbrev pub with_transaction : Session → Option SnapshotTransaction → Session
with_transaction s t = record s { snapshot_transaction = t }

abbrev pub preparing_transaction : Text → Text → SnapshotTransaction
preparing_transaction generation pod = record {
  generation = generation;
  owner = generation;
  source_pod = pod;
  phase = preparing;
  checkpoint = none;
}

abbrev pub committed : SnapshotTransaction → Checkpoint → SnapshotTransaction
committed t cp = record t { phase = committing; checkpoint = some cp }

-- The record that a completed freeze leaves.
abbrev pub frozen_session : Session → Checkpoint → Session
frozen_session s cp = record s {
  state = snapshot;
  pod = [];
  auxiliary_pods = [];
  checkpoint = some cp;
  snapshot_transaction = none;
}

abbrev pub has_transaction : Session → Bool
has_transaction s = elim s.snapshot_transaction [ none ↦ false | some t ↦ true ]

abbrev pub settled_snapshot : Session → Bool
settled_snapshot s = is_snapshot s && not (has_transaction s)

module _ {W : Type 0} (ports : Ports W) where
  unfoldable pub abort_with_checkpointer : Checkpointer W → Text → Text → Action W Error Unit
  abort_with_checkpointer ckpt pod generation = ckpt.abort_checkpoint (named pod) (record {
    ref = [];
    size_bytes = 0;
    created_at = 0;
    reclaimed = [];
    abort_token = generation;
  })

  abbrev pub abort_through_agent : Text → Text → Action W Error Unit
  abort_through_agent pod generation = elim ports.agent.abort_checkpoint [
    | none ↦ raise (failed 1)
    | some aborter ↦ aborter pod generation
  ]

  unfoldable pub abort_snapshot_generation : WorkloadType → Text → Text → Action W Error Unit
  abort_snapshot_generation workload pod generation = elim (ports.checkpointers workload) [
    | none ↦ abort_through_agent pod generation
    | some ckpt ↦
        if ckpt.enabled
        then abort_with_checkpointer ckpt pod generation
        else abort_through_agent pod generation
  ]

  unfoldable pub undo_prepare : Session → Checkpointer W → SnapshotTransaction → Action W Error Unit
  undo_prepare sess ckpt txn = do
    abort_with_checkpointer ckpt txn.source_pod txn.generation
    check_deadline ports
    ports.store.compare_and_swap_session sess.id txn.owner sess.state (some txn)
        (with_transaction sess none)

  -- The error that the failed freeze reports: its cause, joined with what went wrong in undoing it.
  unfoldable pub rollback_preparing_snapshot :
      Session → Checkpointer W → Error → Action W Error Error
  rollback_preparing_snapshot sess ckpt cause = elim sess.snapshot_transaction [
    | none ↦ pure cause
    | some txn ↦ handle (undo_prepare sess ckpt txn) (λ e. pure (joined cause e)) λ t. pure cause
  ]

  abbrev pub fail_with : Action W Error Error → Action W Error Session
  fail_with m = do e ← m; raise e

  -- A conflict is a success when the record is frozen already.
  abbrev pub or_frozen : Text → Error → Action W Error Session
  or_frozen id e =
      if not (is conflict e)
      then raise e
      else handle (get ports id) (λ g. raise e) λ s. if settled_snapshot s then pure s else raise e

  unfoldable pub finalize_with :
      Session → Text → SnapshotTransaction → Checkpoint → Action W Error Session
  finalize_with sess token txn cp =
      handle
        (ports.store.compare_and_swap_session sess.id token sess.state (some txn)
          (frozen_session sess cp))
        (or_frozen sess.id) λ t. pure (frozen_session sess cp)

  abbrev pub finalize_commit :
      Session → Text → SnapshotTransaction → Phase → Option Checkpoint → Action W Error Session
  finalize_commit sess token txn committing (some cp) = finalize_with sess token txn cp
  finalize_commit sess token txn _ _ = raise (sentinel invalid_state)

  unfoldable pub finalize_snapshot_locked : Session → Text → Action W Error Session
  finalize_snapshot_locked sess token = check_context ports >> elim sess.snapshot_transaction [
    | none ↦ raise (sentinel invalid_state)
    | some txn ↦ finalize_commit sess token txn txn.phase txn.checkpoint
  ]
