-- ===== src/Service/Reclaim.antt =====
-- control-plane/internal/service/manager.go: recovery on noted ports.
use session_platform.Prelude.{
  ℕ, zero, suc, ◌≡◌, true, false, not, ◌||◌, text_eq, is_empty, Option, none, some, Text, arith,
  Result, ok, err, Action,
}
use session_platform.Prelude.Keeps.{
  Leads, Keeps, Leads-bind, Keeps-bind, Leads-handle, Leads-handle-post, Leads-bind-post,
  Leads-weaken, Leads-from, Leads-if, Keeps-raise, Keeps-pure,
}
use session_platform.Session.Errors.{Error, is, conflict}
use session_platform.Service.Helpers.{session_reclaim_refs}
use session_platform.Session.Types.{Phase, preparing, committing}
use session_platform.Session.Record.{Session, Checkpoint, SnapshotTransaction}
use session_platform.Service.Ports.{Ports}
use session_platform.Service.Observed.{Trace, observed, is_commit, is_decided, commits, has_commit}
use session_platform.Service.Helpers.{get, normalize_stored_session}
use session_platform.Service.Transactions.{
  abort_with_checkpointer, abort_snapshot_generation, is_snapshot, has_transaction,
}
use session_platform.Service.Recovery.{
  abort_prepared, recover_preparing, recover_committing, recover_transaction, recover_phase,
  recover_if_any, recover_round, recover_snapshot_locked, has_ref,
}
use session_platform.Service.Snapshot.{load_settled}
use session_platform.Service.Commit.{
  Safe, Decided, check_context-Keeps, swap-Keeps, stop-Keeps, finalize-Keeps, release-Keeps,
}

module _ {W : Type 0} where
  -- A commit that a transaction shows was read from the store or written to it.
  abbrev Backing : Phase → Option Checkpoint → W × Trace → Type 0
  Backing phase cp s = Safe s × (is_commit phase cp ≡ true → has_commit s.1 ≡ true)

  -- So for the commit that a record shows from the store or written to it.
  abbrev pub Backed : Session → W × Trace → Type 0
  Backed sess s = Safe s × (commits sess ≡ true → has_commit s.1 ≡ true)

  abbrev pub Read : Result Error Session × (W × Trace) → Type 0
  Read (ok sess, s) = Backed sess s
  Read (err e, s) = Safe s

there-is_commit : (o : Option Checkpoint) → not (has_ref o) ≡ false → is_commit committing o ≡ true
there-is_commit o h = ground arith

module _ {W : Type 0} (ports : Ports W) where
  commits-normalize_stored_session :
      (raw sess : Session) → normalize_stored_session raw ≡ ok sess → commits sess ≡ commits raw
  unfolding normalize_stored_session
  commits-normalize_stored_session raw sess h = ground arith

  pub get-Read : (id : Text) (s : W × Trace) → Safe s → Read (get (observed ports) id s)
  unfolding get normalize_stored_session
  get-Read id s h = ground arith

  abort_prepared-Keeps :
      (sess : Session) (token : Text) (txn : SnapshotTransaction)
      → Keeps Safe (abort_prepared (observed ports) sess token txn)
  unfolding abort_prepared abort_snapshot_generation abort_with_checkpointer
  abort_prepared-Keeps sess token txn = record { at = λ s h. ground arith }

  recover_committing-Safe :
      (sess : Session) (token : Text) (txn : SnapshotTransaction)
      → Leads
          (Backing committing txn.checkpoint)
          Safe
          (recover_committing (observed ports) sess token txn)
  unfolding recover_committing
  recover_committing-Safe sess token txn =
      Leads-if (not (has_ref txn.checkpoint)) (λ missing. record { at = λ s h. h.0 })
        λ there.
          Leads-weaken
            (Leads-from
              (Keeps-bind (stop-Keeps ports (session_reclaim_refs sess txn.source_pod)) λ t.
                Keeps-bind (check_context-Keeps ports Decided) λ t.
                  Keeps-bind (finalize-Keeps ports sess token) λ frozen.
                    Keeps-bind (release-Keeps ports frozen.workload_type frozen.id none)
                      λ t. Keeps-pure frozen)
              λ s h. (h.0, h.1 (there-is_commit txn.checkpoint there)))
            λ s d. d.0

  module _ (again : Session → Action (W × Trace) Error Session)
      (again-Safe : (sess : Session) → Leads (Backed sess) Safe (again sess)) where
    recover_preparing-Keeps :
        (sess : Session) (token : Text) (txn : SnapshotTransaction)
        → Keeps Safe (recover_preparing (observed ports) again sess token txn)
    unfolding recover_preparing
    recover_preparing-Keeps sess token txn =
        Leads-if (is_snapshot sess) (λ frozen. Keeps-raise _)
          λ live.
            Leads-if (text_eq txn.owner token) (λ ours. abort_prepared-Keeps sess token txn)
              λ other.
                Leads-handle (swap-Keeps ports _ _ _ _ _)
                  (λ e.
                    Leads-if (is conflict e)
                      (λ lost.
                        Leads-handle-post Read (get-Read sess.id) (λ g. Keeps-raise _) again-Safe)
                      λ kept. Keeps-raise e)
                  λ t. abort_prepared-Keeps _ token _

    recover_phase-Safe :
        (sess : Session) (token : Text) (txn : SnapshotTransaction) (phase : Phase)
        → Leads
            (Backing phase txn.checkpoint)
            Safe
            (recover_phase (observed ports) again sess token txn phase)
    recover_phase-Safe sess token txn preparing =
        Leads-from (recover_preparing-Keeps sess token txn) λ s h. h.0
    recover_phase-Safe sess token txn committing = recover_committing-Safe sess token txn
    recover_phase-Safe sess token txn (Phase.unknown t) = record { at = λ s h. h.0 }

    recover_transaction-Safe :
        (sess : Session) (token : Text) (txn : SnapshotTransaction)
        → Leads
            (Backing txn.phase txn.checkpoint)
            Safe
            (recover_transaction (observed ports) again sess token txn)
    unfolding recover_transaction
    recover_transaction-Safe sess token txn =
        Leads-bind (check_context-Keeps ports (Backing txn.phase txn.checkpoint)) (λ s h. h.0)
          λ t.
            Leads-if (is_empty txn.generation || is_empty txn.source_pod)
              (λ broken. record { at = λ s h. h.0 })
              λ whole. recover_phase-Safe sess token txn txn.phase

    recover_if_any-Safe :
        (sess : Session) (token : Text) (o : Option SnapshotTransaction)
        → Leads
            (λ s. Safe s × (is_decided o ≡ true → has_commit s.1 ≡ true))
            Safe
            (recover_if_any (observed ports) again sess token o)
    recover_if_any-Safe sess token none = record { at = λ s h. h.0 }
    recover_if_any-Safe sess token (some txn) = recover_transaction-Safe sess token txn

    recover_round-Safe :
        (sess : Session) (token : Text)
        → Leads (Backed sess) Safe (recover_round (observed ports) again sess token)
    unfolding recover_round
    recover_round-Safe sess token = recover_if_any-Safe sess token sess.snapshot_transaction

  recover_snapshot_locked-Safe :
      (rounds : ℕ) (sess : Session) (token : Text)
      → Leads (Backed sess) Safe (recover_snapshot_locked (observed ports) rounds sess token)
  unfolding recover_snapshot_locked
  recover_snapshot_locked-Safe zero sess token = record { at = λ s h. h.0 }
  recover_snapshot_locked-Safe (suc rounds) sess token =
      recover_round-Safe (λ s. recover_snapshot_locked (observed ports) rounds s token)
        (λ s. recover_snapshot_locked-Safe rounds s token) sess token

  pub load_settled-Keeps :
      (rounds : ℕ) (id token : Text) → Keeps Safe (load_settled (observed ports) rounds id token)
  unfolding load_settled
  load_settled-Keeps rounds id token =
      Leads-bind-post Read (get-Read id) (λ e s h. h)
        λ sess.
          Leads-if (has_transaction sess)
            (λ pending. recover_snapshot_locked-Safe rounds sess token)
            λ settled. record { at = λ s h. h.0 }
