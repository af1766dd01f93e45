-- ===== src/Service/Reaper.antt =====
-- control-plane/internal/service/reaper.go: the idle reaper. The manager and the clock are parameters; its log
-- is not modelled.
use session_platform.Prelude.{
  ℕ, suc, ◌+◌, ◌-◌, Bool, true, false, Option, none, some, List, [], ◌∷◌, Text, ltb, Result, ok,
  err, Action, pure, attempt, ◌>>=◌, if◌then◌else◌,
}
use session_platform.Session.Errors.{Error}
use session_platform.Session.Record.{Session}
use session_platform.Service.Transactions.{is_snapshot}

-- session.Manager as far as the reaper calls it: `snapshot_if_idle` is `none` for a manager without
-- the guarded variant.
pub record IdleManager (W : Type 0) : Type 0 where
  pub list : Action W Error (List Session)
  pub snapshot : Text → Action W Error Session
  pub snapshot_if_idle : Option (Text → ℕ → Action W Error (Session × Bool))
  pub now : W → ℕ

module _ {W : Type 0} (mgr : IdleManager W) (max_idle : ℕ) where
  -- `idle < maxIdle`, where `idle` is `now - LastAccess` and may be negative.
  abbrev pub within_budget : ℕ → Session → Bool
  within_budget now s = ltb now (s.last_access + max_idle)

  unfoldable pub reap : ℕ → Session → Action W Error (Result Error (Session × Bool))
  reap now s = elim mgr.snapshot_if_idle [
    | some guarded ↦ attempt (guarded s.id (now - max_idle))
    | none ↦ attempt (do frozen ← mgr.snapshot s.id; pure (frozen, true))
  ]

  abbrev pub counted : Result Error (Session × Bool) → ℕ → ℕ
  counted (err e) n = n
  counted (ok (s, false)) n = n
  counted (ok (s, true)) n = suc n

  unfoldable pub scan : ℕ → List Session → ℕ → Action W Error ℕ
  scan now [] n = pure n
  scan now (s ∷ ss) n =
      let skip = scan now ss n in
      if is_snapshot s
      then skip
      else if within_budget now s
      then skip
      else do done ← reap now s; scan now ss (counted done n)

  unfoldable pub scan_once : Action W Error ℕ
  scan_once = do sessions ← mgr.list; λ w. scan (mgr.now w) sessions 0 w
