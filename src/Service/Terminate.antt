-- ===== src/Service/Terminate.antt =====
-- control-plane/internal/service/manager.go: `Terminate`.
use session_platform.Prelude.{
  Option, none, some, List, [], ◌∷◌, Text, is_empty, Result, ok, err, Action, pure, lift, attempt,
  ◌>>=◌, ◌>>◌, if◌then◌else◌,
}
use session_platform.Session.Errors.{Error}
use session_platform.Session.Record.{Session, SnapshotTransaction}
use session_platform.Pods.{PodRef}
use session_platform.Service.Ports.{Ports}
use session_platform.Service.Slots.{auth_slot_signed_in, release_auth_slot_best_effort}
use session_platform.Service.Helpers.{
  check_context, get, session_reclaim_refs, unlock_best_effort, with_renewal,
}
use session_platform.Service.Transactions.{with_transaction}

abbrev pub source_pod : Option SnapshotTransaction → Text
source_pod none = []
source_pod (some txn) = txn.source_pod

-- Once the deletion is committed, a heartbeat failure no longer counts.
abbrev pub unless_deleted : Result Error Unit → Option Error → Result Error Unit
unless_deleted (ok t) renewal = ok t
unless_deleted (err e) renewal = with_renewal (err e) renewal

module _ {W : Type 0} (ports : Ports W) where
  -- A transaction in flight is claimed, so that its holder cannot commit it any more.
  unfoldable pub claim_transaction : Text → Text → Session → Action W Error Session
  claim_transaction id token sess = elim sess.snapshot_transaction [
    | none ↦ pure sess
    | some txn ↦ (do
      let next = with_transaction sess (some (record txn { owner = token }))
      ports.store.compare_and_swap_session id token sess.state (some txn) next
      pure next)
  ]

  unfoldable pub stop_each : List PodRef → Action W Error Unit
  stop_each [] = pure tt
  stop_each (r ∷ rs) =
      let rest = stop_each rs in
      if is_empty r.name then rest else ports.orch.stop (r ∷ []) >> (check_context ports >> rest)

  unfoldable pub terminate_locked : Text → Text → Action W Error Unit
  terminate_locked id token = do
    found ← get ports id
    sess ← claim_transaction id token found
    signed_in ← auth_slot_signed_in ports sess
    stop_each (session_reclaim_refs sess (source_pod sess.snapshot_transaction))
    ports.store.delete id token
    release_auth_slot_best_effort ports sess.workload_type id signed_in

  -- The operation and its deferred calls, once the lock is held.
  unfoldable pub terminate_under_lock : Text → Text → Action W Error Unit
  terminate_under_lock id token = do
    result ← attempt (terminate_locked id token)
    settled ← λ w. (ok (unless_deleted result (ports.renewal_err w)), w)
    unlock_best_effort ports id token
    lift settled

  unfoldable pub terminate : Text → Action W Error Unit
  terminate id = do token ← ports.new_id; ports.store.lock id token; terminate_under_lock id token
