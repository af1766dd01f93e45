-- ===== src/Service/Recovery.antt =====
-- control-plane/internal/service/manager.go: recovering a freeze that a crash or a lost lock cut short.
use session_platform.Prelude.{
  ℕ, zero, suc, Bool, false, not, ◌||◌, Option, none, some, Text, text_eq, is_empty, Action, pure,
  raise, handle, ◌>>=◌, ◌>>◌, if◌then◌else◌,
}
use session_platform.Session.Errors.{
  Error, sentinel, conflict, invalid_state, is, joined, unfinished,
}
use session_platform.Session.Types.{Phase, preparing, committing}
use session_platform.Session.Record.{Session, Checkpoint, SnapshotTransaction}
use session_platform.Service.Ports.{Ports}
use session_platform.Service.Slots.{release_auth_slot_best_effort}
use session_platform.Service.Helpers.{check_context, get, session_reclaim_refs}
use session_platform.Service.Transactions.{
  is_snapshot, with_transaction, abort_snapshot_generation, finalize_snapshot_locked,
}

abbrev pub has_ref : Option Checkpoint → Bool
has_ref none = false
has_ref (some cp) = not (is_empty cp.ref)

module _ {W : Type 0} (ports : Ports W) where
  -- Undo a prepare that this holder owns.
  unfoldable pub abort_prepared : Session → Text → SnapshotTransaction → Action W Error Session
  abort_prepared sess token txn = do
    abort_snapshot_generation ports sess.workload_type txn.source_pod txn.generation
    check_context ports
    let next = with_transaction sess none
    ports.store.compare_and_swap_session sess.id token sess.state (some txn) next
    pure next

  -- The first argument is the whole recovery again, on the record as it is then.
  unfoldable pub recover_preparing :
      (Session → Action W Error Session)
      → Session
      → Text
      → SnapshotTransaction
      → Action W Error Session
  recover_preparing again sess token txn =
      if is_snapshot sess
      then raise (sentinel invalid_state)
      else if text_eq txn.owner token
      then abort_prepared sess token txn
      else do
        let claimed = record txn { owner = token }
        let next = with_transaction sess (some claimed)
        handle (ports.store.compare_and_swap_session sess.id token sess.state (some txn) next)
            (λ e.
              if is conflict e
              then handle (get ports sess.id) (λ g. raise (joined e g)) again
              else raise e)
            λ t. abort_prepared next token claimed

  unfoldable pub recover_committing : Session → Text → SnapshotTransaction → Action W Error Session
  recover_committing sess token txn =
      if not (has_ref txn.checkpoint) then raise (sentinel invalid_state) else do
        ports.orch.stop (session_reclaim_refs sess txn.source_pod)
        check_context ports
        frozen ← finalize_snapshot_locked ports sess token
        release_auth_slot_best_effort ports frozen.workload_type frozen.id none
        pure frozen

  abbrev pub recover_phase :
      (Session → Action W Error Session)
      → Session
      → Text
      → SnapshotTransaction
      → Phase
      → Action W Error Session
  recover_phase again sess token txn preparing = recover_preparing again sess token txn
  recover_phase again sess token txn committing = recover_committing sess token txn
  recover_phase again sess token txn (Phase.unknown t) = raise (sentinel invalid_state)

  unfoldable pub recover_transaction :
      (Session → Action W Error Session)
      → Session
      → Text
      → SnapshotTransaction
      → Action W Error Session
  recover_transaction again sess token txn =
      check_context ports
      >> (if is_empty txn.generation || is_empty txn.source_pod
          then raise (sentinel invalid_state)
          else recover_phase again sess token txn txn.phase)

  abbrev pub recover_if_any :
      (Session → Action W Error Session)
      → Session
      → Text
      → Option SnapshotTransaction
      → Action W Error Session
  recover_if_any again sess token none = pure sess
  recover_if_any again sess token (some txn) = recover_transaction again sess token txn

  unfoldable pub recover_round :
      (Session → Action W Error Session) → Session → Text → Action W Error Session
  recover_round again sess token = recover_if_any again sess token sess.snapshot_transaction

  -- The code repeats the round as long as its claim meets a conflict; here at most so many times.
  unfoldable pub recover_snapshot_locked : ℕ → Session → Text → Action W Error Session
  recover_snapshot_locked zero sess token = raise unfinished
  recover_snapshot_locked (suc rounds) sess token =
      recover_round (λ s. recover_snapshot_locked rounds s token) sess token
