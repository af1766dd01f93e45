-- ===== src/Service/Unstarted.antt =====
-- control-plane/internal/service/manager.go: recovery starts no pods.
use session_platform.Prelude.{
  ℕ, zero, suc, not, ◌||◌, text_eq, is_empty, Option, none, some, Text, arith, Action,
}
use session_platform.Prelude.Keeps.{
  Keeps, Keeps-bind, Leads-handle, Leads-if, Keeps-raise, Keeps-pure,
}
use session_platform.Session.Errors.{Error, is, conflict}
use session_platform.Session.Types.{Phase, preparing, committing, State, WorkloadType}
use session_platform.Session.Record.{Session, SnapshotTransaction}
use session_platform.Service.Ports.{Ports}
use session_platform.Service.Observed.{Trace, observed}
use session_platform.Service.Helpers.{get, check_context, session_reclaim_refs}
use session_platform.Service.Slots.{release_auth_slot_best_effort}
use session_platform.Service.Transactions.{
  abort_with_checkpointer, abort_snapshot_generation, finalize_snapshot_locked, finalize_with,
  is_snapshot, has_transaction,
}
use session_platform.Service.Recovery.{
  abort_prepared, recover_preparing, recover_committing, recover_transaction, recover_phase,
  recover_if_any, recover_round, recover_snapshot_locked, has_ref,
}
use session_platform.Service.Snapshot.{load_settled}
use session_platform.Service.Cleaned.{Clear}

module _ {W : Type 0} (ports : Ports W) where
  get-Clear : (id : Text) → Keeps Clear (get (observed ports) id)
  unfolding get
  get-Clear id = record { at = λ s h later. grind (arith, h) }

  pub check_context-Clear : Keeps Clear (check_context (observed ports))
  check_context-Clear = record { at = λ s h later. grind (arith, h) }

  swap-Clear :
      (id token : Text) (state : State) (txn : Option SnapshotTransaction) (next : Session)
      → Keeps Clear ((observed ports).store.compare_and_swap_session id token state txn next)
  swap-Clear id token state txn next = record { at = λ s h later. grind (arith, h) }

  abort_prepared-Clear :
      (sess : Session) (token : Text) (txn : SnapshotTransaction)
      → Keeps Clear (abort_prepared (observed ports) sess token txn)
  unfolding abort_prepared abort_snapshot_generation abort_with_checkpointer
  abort_prepared-Clear sess token txn = record { at = λ s h later. grind (arith, h) }

  finalize-Clear :
      (sess : Session) (token : Text)
      → Keeps Clear (finalize_snapshot_locked (observed ports) sess token)
  unfolding finalize_snapshot_locked finalize_with get
  finalize-Clear sess token = record { at = λ s h later. grind (arith, h) }

  pub release-Clear :
      (workload : WorkloadType) (id : Text)
      → Keeps Clear (release_auth_slot_best_effort (observed ports) workload id none)
  unfolding release_auth_slot_best_effort
  release-Clear workload id = record { at = λ s h later. grind (arith, h) }

  recover_committing-Clear :
      (sess : Session) (token : Text) (txn : SnapshotTransaction)
      → Keeps Clear (recover_committing (observed ports) sess token txn)
  unfolding recover_committing
  recover_committing-Clear sess token txn =
      Leads-if (not (has_ref txn.checkpoint)) (λ missing. Keeps-raise _)
        λ there.
          Keeps-bind {m = (observed ports).orch.stop (session_reclaim_refs sess txn.source_pod)}
            (record { at = λ s h later. grind (arith, h) })
            λ t. Keeps-bind check_context-Clear λ t.
              Keeps-bind (finalize-Clear sess token) λ frozen.
                Keeps-bind (release-Clear frozen.workload_type frozen.id) λ t. Keeps-pure frozen

  module _ (again : Session → Action (W × Trace) Error Session)
      (again-Clear : (sess : Session) → Keeps Clear (again sess)) where
    recover_preparing-Clear :
        (sess : Session) (token : Text) (txn : SnapshotTransaction)
        → Keeps Clear (recover_preparing (observed ports) again sess token txn)
    unfolding recover_preparing
    recover_preparing-Clear sess token txn =
        Leads-if (is_snapshot sess) (λ frozen. Keeps-raise _)
          λ live.
            Leads-if (text_eq txn.owner token) (λ ours. abort_prepared-Clear sess token txn)
              λ other.
                Leads-handle (swap-Clear _ _ _ _ _)
                  (λ e.
                    Leads-if (is conflict e)
                      (λ lost. Leads-handle (get-Clear sess.id) (λ g. Keeps-raise _) again-Clear)
                      λ kept. Keeps-raise e)
                  λ t. abort_prepared-Clear _ token _

    recover_phase-Clear :
        (sess : Session) (token : Text) (txn : SnapshotTransaction) (phase : Phase)
        → Keeps Clear (recover_phase (observed ports) again sess token txn phase)
    recover_phase-Clear sess token txn preparing = recover_preparing-Clear sess token txn
    recover_phase-Clear sess token txn committing = recover_committing-Clear sess token txn
    recover_phase-Clear sess token txn (Phase.unknown t) = Keeps-raise _

    recover_round-Clear :
        (sess : Session) (token : Text)
        → Keeps Clear (recover_round (observed ports) again sess token)
    unfolding recover_round recover_transaction
    recover_round-Clear sess token = by_transaction sess.snapshot_transaction
      where
        by_transaction :
            (o : Option SnapshotTransaction)
            → Keeps Clear (recover_if_any (observed ports) again sess token o)
        by_transaction none = Keeps-pure sess
        by_transaction (some txn) = Keeps-bind check_context-Clear λ t.
            Leads-if (is_empty txn.generation || is_empty txn.source_pod) (λ broken. Keeps-raise _)
              λ whole. recover_phase-Clear sess token txn txn.phase

  recover_snapshot_locked-Clear :
      (rounds : ℕ) (sess : Session) (token : Text)
      → Keeps Clear (recover_snapshot_locked (observed ports) rounds sess token)
  unfolding recover_snapshot_locked
  recover_snapshot_locked-Clear zero sess token = Keeps-raise _
  recover_snapshot_locked-Clear (suc rounds) sess token =
      recover_round-Clear (λ s. recover_snapshot_locked (observed ports) rounds s token)
        (λ s. recover_snapshot_locked-Clear rounds s token) sess token

  pub load_settled-Clear :
      (rounds : ℕ) (id token : Text) → Keeps Clear (load_settled (observed ports) rounds id token)
  unfolding load_settled
  load_settled-Clear rounds id token = Keeps-bind (get-Clear id) λ sess.
      Leads-if (has_transaction sess) (λ pending. recover_snapshot_locked-Clear rounds sess token)
        λ settled. Keeps-pure sess
