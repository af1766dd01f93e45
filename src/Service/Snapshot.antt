-- ===== src/Service/Snapshot.antt =====
-- control-plane/internal/service/manager.go: `snapshot`, behind `Snapshot` and `SnapshotIfIdle`, and
-- `recoverSnapshot`.
use session_platform.Prelude.{
  ℕ, Bool, true, false, Option, none, some, Text, ltb, Result, Action, pure, lift, ◌>>=◌,
  if◌then◌else◌,
}
use session_platform.Session.Errors.{Error}
use session_platform.Session.Record.{Session}
use session_platform.Service.Ports.{Ports, Checkpointer}
use session_platform.Service.Helpers.{
  get, touch_get, checkpointer_for, holding_for_approval, locked,
}
use session_platform.Service.Transactions.{is_snapshot, has_transaction}
use session_platform.Service.Freeze.{snapshot_with_transaction_locked}
use session_platform.Service.Recovery.{recover_snapshot_locked}

module _ {W : Type 0} (ports : Ports W) where
  abbrev pub freeze_with :
      Session → Text → Result Error (Checkpointer W) → Action W Error (Session × Bool)
  freeze_with sess token enabled = do
    ckpt ← lift enabled
    frozen ← snapshot_with_transaction_locked ports sess token ckpt
    pure (frozen, true)

  -- The second component tells whether this call froze the session.
  unfoldable pub freeze : Session → Text → Action W Error (Session × Bool)
  freeze sess token =
      if is_snapshot sess
      then pure (sess, false)
      else freeze_with sess token (checkpointer_for ports sess.workload_type)

  unfoldable pub freeze_if_idle : Text → Text → ℕ → Action W Error (Session × Bool)
  freeze_if_idle id token cutoff = do
    sess ← get ports id
    if ltb cutoff sess.last_access then pure (sess, false) else do
      holding ← holding_for_approval ports sess
      if holding then (do s ← touch_get ports id; pure (s, false)) else freeze sess token

  -- An explicit snapshot has no cutoff.
  abbrev pub freeze_at : Text → Text → Session → Option ℕ → Action W Error (Session × Bool)
  freeze_at id token sess none = freeze sess token
  freeze_at id token sess (some cutoff) = freeze_if_idle id token cutoff

module _ {W : Type 0} (ports : Ports W) (rounds : ℕ) where
  unfoldable pub recover_snapshot : Text → Action W Error Session
  recover_snapshot id =
      locked ports id
        λ token. (do sess ← get ports id; recover_snapshot_locked ports rounds sess token)

  -- The record under the lock, with no transaction in flight.
  unfoldable pub load_settled : Text → Text → Action W Error Session
  load_settled id token = do
    sess ← get ports id
    if has_transaction sess then recover_snapshot_locked ports rounds sess token else pure sess

  unfoldable pub snapshot_session : Text → Option ℕ → Action W Error (Session × Bool)
  snapshot_session id idle_cutoff =
      locked ports id
        λ token. (do sess ← load_settled id token; freeze_at ports id token sess idle_cutoff)
