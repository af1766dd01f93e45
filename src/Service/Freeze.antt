-- ===== src/Service/Freeze.antt =====
-- control-plane/internal/service/manager.go: `snapshotWithTransactionLocked`.
use session_platform.Prelude.{
  none, some, Text, err, Action, pure, raise, handle, ◌>>=◌, ◌>>◌, if◌then◌else◌,
}
use session_platform.Session.Errors.{Error, conflict, is}
use session_platform.Session.Record.{Session, Checkpoint, SnapshotTransaction}
use session_platform.Pods.{named}
use session_platform.Service.Ports.{Ports, Checkpointer}
use session_platform.Service.Slots.{auth_slot_signed_in, release_auth_slot_best_effort}
use session_platform.Service.Helpers.{check_context, session_pod_refs}
use session_platform.Service.Transactions.{
  with_transaction, preparing_transaction, committed, rollback_preparing_snapshot, fail_with,
  finalize_snapshot_locked,
}

module _ {W : Type 0} (ports : Ports W) where
  -- From the durable commit on: reclaim the pods, then finish the record.
  unfoldable pub reclaim_committed : Session → Text → Action W Error Session
  reclaim_committed sess generation = do
    check_context ports
    signed_in ← auth_slot_signed_in ports sess
    ports.orch.stop (session_pod_refs sess)
    frozen ← finalize_snapshot_locked ports sess generation
    release_auth_slot_best_effort ports frozen.workload_type frozen.id signed_in
    pure frozen

  unfoldable pub commit_snapshot :
      Session → Text → Checkpointer W → SnapshotTransaction → Checkpoint → Action W Error Session
  commit_snapshot sess generation ckpt txn cp = do
    check_context ports
    let next = with_transaction sess (some (committed txn cp))
    handle (ports.store.compare_and_swap_session sess.id generation sess.state (some txn) next)
        (λ e.
          if is conflict e
          then fail_with ports (rollback_preparing_snapshot ports sess ckpt e)
          else raise e)
        λ t. reclaim_committed next generation

  -- A checkpoint that failed with the context still alive is rolled back.
  abbrev pub checkpoint_failed : Session → Checkpointer W → Error → Action W Error Session
  checkpoint_failed sess ckpt e w = elim (ports.ctx_err w) [
    | some c ↦ (err e, w)
    | none ↦ fail_with ports (rollback_preparing_snapshot ports sess ckpt e) w
  ]

  unfoldable pub snapshot_with_transaction_locked :
      Session → Text → Checkpointer W → Action W Error Session
  snapshot_with_transaction_locked sess generation ckpt = do
    let txn = preparing_transaction generation sess.pod
    let next = with_transaction sess (some txn)
    ports.store.compare_and_swap_session sess.id generation sess.state sess.snapshot_transaction
        next
    check_context ports
    handle (ckpt.checkpoint_with_generation (named sess.pod) generation)
        (checkpoint_failed next ckpt) (commit_snapshot next generation ckpt txn)
