-- ===== src/Service/Commit.antt =====
-- control-plane/internal/service/manager.go: the freeze itself on noted ports.
use session_platform.Prelude.{
  ◌≡◌, Bool, true, Option, some, List, Text, arith, Result, ok, err, Action,
}
use session_platform.Prelude.Keeps.{
  Keeps, Keeps-bind, Leads-handle, Leads-handle-post, Leads-weaken, Leads-if, Keeps-raise,
  Keeps-pure,
}
use session_platform.Session.Errors.{Error, is, conflict}
use session_platform.Session.Types.{WorkloadType, State}
use session_platform.Pods.{PodRef}
use session_platform.Session.Record.{Session, Checkpoint, SnapshotTransaction}
use session_platform.Service.Ports.{Ports, Checkpointer}
use session_platform.Service.Observed.{
  Trace, observed, observed_checkpointer, has_commit, stops_after_commit,
}
use session_platform.Service.Slots.{auth_slot_signed_in, release_auth_slot_best_effort}
use session_platform.Service.Helpers.{get, check_context}
use session_platform.Service.Transactions.{
  abort_with_checkpointer, undo_prepare, rollback_preparing_snapshot, finalize_with,
  finalize_snapshot_locked, fail_with, with_transaction, committed, preparing_transaction,
}
use session_platform.Service.Freeze.{
  reclaim_committed, commit_snapshot, checkpoint_failed, snapshot_with_transaction_locked,
}

module _ {W : Type 0} where
  -- No pod was stopped without a durable commit.
  abbrev pub Safe : W × Trace → Type 0
  Safe s = stops_after_commit s.1 ≡ true

  -- And there is such a commit.
  abbrev pub Decided : W × Trace → Type 0
  Decided s = (stops_after_commit s.1 ≡ true) × (has_commit s.1 ≡ true)

  -- After an accepted swap to a committing record.
  abbrev Swap : Result Error Unit × (W × Trace) → Type 0
  Swap (ok t, s) = Decided s
  Swap (err e, s) = Safe s

module _ {W : Type 0} (ports : Ports W) where
  pub check_context-Keeps : (P : W × Trace → Type 0) → Keeps P (check_context (observed ports))
  check_context-Keeps P = record { at = λ s h. ground arith }

  pub swap-Keeps :
      (id token : Text) (state : State) (txn : Option SnapshotTransaction) (next : Session)
      → Keeps Safe ((observed ports).store.compare_and_swap_session id token state txn next)
  swap-Keeps id token state txn next = record { at = λ s h. ground arith }

  pub stop-Keeps : (refs : List PodRef) → Keeps Decided ((observed ports).orch.stop refs)
  stop-Keeps refs = record { at = λ s h. ground arith }

  checkpoint-Keeps :
      (ckpt : Checkpointer W) (ref : PodRef) (generation : Text)
      → Keeps Safe ((observed_checkpointer ckpt).checkpoint_with_generation ref generation)
  checkpoint-Keeps ckpt ref generation = record { at = λ s h. ground arith }

  signed_in-Keeps : (sess : Session) → Keeps Decided (auth_slot_signed_in (observed ports) sess)
  unfolding auth_slot_signed_in
  signed_in-Keeps sess = record { at = λ s h. ground arith }

  pub finalize-Keeps :
      (sess : Session) (token : Text)
      → Keeps Decided (finalize_snapshot_locked (observed ports) sess token)
  unfolding finalize_snapshot_locked finalize_with get
  finalize-Keeps sess token = record { at = λ s h. ground arith }

  pub release-Keeps :
      (workload : WorkloadType) (id : Text) (signed_in : Option Bool)
      → Keeps Decided (release_auth_slot_best_effort (observed ports) workload id signed_in)
  unfolding release_auth_slot_best_effort
  release-Keeps workload id signed_in = record { at = λ s h. ground arith }

  reclaim_committed-Keeps :
      (sess : Session) (generation : Text)
      → Keeps Decided (reclaim_committed (observed ports) sess generation)
  unfolding reclaim_committed
  reclaim_committed-Keeps sess generation = Keeps-bind (check_context-Keeps Decided) λ t.
      Keeps-bind (signed_in-Keeps sess) λ signed_in. Keeps-bind (stop-Keeps _) λ t.
        Keeps-bind (finalize-Keeps sess generation) λ frozen.
          Keeps-bind (release-Keeps frozen.workload_type frozen.id signed_in) λ t. Keeps-pure frozen

  rollback-Keeps :
      (sess : Session) (ckpt : Checkpointer W) (cause : Error)
      → Keeps Safe
          (rollback_preparing_snapshot (observed ports) sess (observed_checkpointer ckpt) cause)
  unfolding rollback_preparing_snapshot abort_with_checkpointer undo_prepare
  rollback-Keeps sess ckpt cause = record { at = λ s h. ground arith }

  fail_with-Keeps :
      (m : Action (W × Trace) Error Error)
      → Keeps Safe m
      → Keeps Safe (fail_with (observed ports) m)
  fail_with-Keeps m km = Keeps-bind km λ e. Keeps-raise e

  commit_snapshot-Keeps :
      (sess : Session) (generation : Text) (ckpt : Checkpointer W) (txn : SnapshotTransaction)
      (cp : Checkpoint)
      → Keeps Safe
          (commit_snapshot (observed ports) sess generation (observed_checkpointer ckpt) txn cp)
  unfolding commit_snapshot
  commit_snapshot-Keeps sess generation ckpt txn cp = Keeps-bind (check_context-Keeps Safe) λ t.
      Leads-handle-post Swap {m = swap} (λ s h. ground arith)
        (λ e.
          Leads-if (is conflict e) (λ lost. fail_with-Keeps _ (rollback-Keeps sess ckpt e))
            λ kept. Keeps-raise e)
        λ t. Leads-weaken (reclaim_committed-Keeps next generation) λ s h. h.0
    where
      next : Session
      next = with_transaction sess (some (committed txn cp))

      swap : Action (W × Trace) Error Unit
      swap =
          (observed ports).store.compare_and_swap_session sess.id generation sess.state (some txn)
            next

  checkpoint_failed-Keeps :
      (sess : Session) (ckpt : Checkpointer W) (e : Error)
      → Keeps Safe (checkpoint_failed (observed ports) sess (observed_checkpointer ckpt) e)
  checkpoint_failed-Keeps sess ckpt e = record {
    at = λ s h. ground (arith, (fail_with-Keeps _ (rollback-Keeps sess ckpt e)).at s h);
  }

  pub snapshot_with_transaction_locked-Keeps :
      (sess : Session) (generation : Text) (ckpt : Checkpointer W)
      → Keeps Safe (
          snapshot_with_transaction_locked
            (observed ports)
            sess
            generation
            (observed_checkpointer ckpt))
  unfolding snapshot_with_transaction_locked
  snapshot_with_transaction_locked-Keeps sess generation ckpt =
      Keeps-bind (swap-Keeps _ _ _ _ _) λ t. Keeps-bind (check_context-Keeps Safe) λ t.
        Leads-handle (checkpoint-Keeps ckpt _ generation) (λ e. checkpoint_failed-Keeps next ckpt e)
          λ cp. commit_snapshot-Keeps next generation ckpt txn cp
    where
      txn : SnapshotTransaction
      txn = preparing_transaction generation sess.pod

      next : Session
      next = with_transaction sess (some txn)
