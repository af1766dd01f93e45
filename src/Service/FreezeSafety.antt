-- ===== src/Service/FreezeSafety.antt =====
-- control-plane/internal/service/manager.go: `snapshot` as a whole on noted ports.
use session_platform.Prelude.{
  ℕ, ◌≡◌, refl, true, false, Option, none, some, [], Text, arith, Result, ok, err, Action, ◌>>=◌,
}
use session_platform.Prelude.Keeps.{
  Keeps, Keeps-bind, Leads-if, Keeps-lift, Keeps-attempt, Keeps-raise, Keeps-pure,
}
use session_platform.Session.Errors.{Error}
use session_platform.Session.Types.{WorkloadType}
use session_platform.Session.Record.{Session}
use session_platform.Service.Ports.{Ports, Checkpointer}
use session_platform.Service.Observed.{Trace, observed, observed_checkpointer, stops_after_commit}
use session_platform.Service.Helpers.{
  get, touch, touch_get, stop_renewal, holding_for_approval, checkpointer_for, locked,
  unlock_best_effort,
}
use session_platform.Service.Transactions.{is_snapshot}
use session_platform.Service.Snapshot.{
  load_settled, freeze, freeze_with, freeze_if_idle, snapshot_session, freeze_at,
}
use session_platform.Service.Commit.{Safe, snapshot_with_transaction_locked-Keeps}
use session_platform.Service.Reclaim.{load_settled-Keeps}
use session_platform.Prelude.{ltb}

-- The checkpointer of the observed ports.
abbrev pub observed_ok :
    {W : Type 0} → Result Error (Checkpointer W) → Result Error (Checkpointer (W × Trace))
observed_ok (ok ckpt) = ok (observed_checkpointer ckpt)
observed_ok (err e) = err e

module _ {W : Type 0} (ports : Ports W) where
  pub checkpointer_for-observed :
      (workload : WorkloadType)
      → checkpointer_for (observed ports) workload ≡ observed_ok (checkpointer_for ports workload)
  unfolding checkpointer_for
  checkpointer_for-observed workload = ground arith

  freeze_with-Keeps :
      (sess : Session) (token : Text) (r : Result Error (Checkpointer W))
      → Keeps Safe (freeze_with (observed ports) sess token (observed_ok r))
  freeze_with-Keeps sess token (err e) = Keeps-raise e
  freeze_with-Keeps sess token (ok ckpt) =
      Keeps-bind (snapshot_with_transaction_locked-Keeps ports sess token ckpt)
        λ frozen. Keeps-pure (frozen, true)

  freeze-Keeps : (sess : Session) (token : Text) → Keeps Safe (freeze (observed ports) sess token)
  unfolding freeze
  freeze-Keeps sess token =
      Leads-if (is_snapshot sess) (λ frozen. Keeps-pure (sess, false))
        λ live.
          rw (checkpointer_for-observed sess.workload_type)
            (freeze_with-Keeps sess token (checkpointer_for ports sess.workload_type))

  get-Keeps : (id : Text) → Keeps Safe (get (observed ports) id)
  unfolding get
  get-Keeps id = record { at = λ s h. ground arith }

  holding-Keeps : (sess : Session) → Keeps Safe (holding_for_approval (observed ports) sess)
  unfolding holding_for_approval
  holding-Keeps sess = record { at = λ s h. ground arith }

  touch-Keeps : (id : Text) → Keeps Safe (touch (observed ports) id)
  unfolding touch
  touch-Keeps id = record { at = λ s h. h }

  touch_get-Keeps : (id : Text) → Keeps Safe (touch_get (observed ports) id)
  unfolding touch_get
  touch_get-Keeps id = Keeps-bind (touch-Keeps id) λ t. get-Keeps id

  freeze_if_idle-Keeps :
      (id token : Text) (cutoff : ℕ) → Keeps Safe (freeze_if_idle (observed ports) id token cutoff)
  unfolding freeze_if_idle
  freeze_if_idle-Keeps id token cutoff = Keeps-bind (get-Keeps id) λ sess.
      Leads-if (ltb cutoff sess.last_access) (λ used. Keeps-pure (sess, false))
        λ idle. Keeps-bind (holding-Keeps sess) λ holding.
          Leads-if holding (λ held. Keeps-bind (touch_get-Keeps id) λ s. Keeps-pure (s, false))
            λ free. freeze-Keeps sess token

  freeze_at-Keeps :
      (id token : Text) (sess : Session) (idle_cutoff : Option ℕ)
      → Keeps Safe (freeze_at (observed ports) id token sess idle_cutoff)
  freeze_at-Keeps id token sess none = freeze-Keeps sess token
  freeze_at-Keeps id token sess (some cutoff) = freeze_if_idle-Keeps id token cutoff

  new_id-Keeps : Keeps Safe (observed ports).new_id
  new_id-Keeps = record { at = λ s h. h }

  lock-Keeps : (id token : Text) → Keeps Safe ((observed ports).store.lock id token)
  lock-Keeps id token = record { at = λ s h. h }

  unlock-Keeps : (id token : Text) → Keeps Safe (unlock_best_effort (observed ports) id token)
  unfolding unlock_best_effort
  unlock-Keeps id token = record { at = λ s h. h }

  stop_renewal-Keeps :
      {A : Type 0} (result : Result Error A) → Keeps Safe (stop_renewal (observed ports) result)
  stop_renewal-Keeps result = record { at = λ s h. h }

  locked-Keeps :
      {A : Type 0} (id : Text) (body : Text → Action (W × Trace) Error A)
      → ((token : Text) → Keeps Safe (body token))
      → Keeps Safe (locked (observed ports) id body)
  unfolding locked
  locked-Keeps id body kb = Keeps-bind new_id-Keeps λ token. Keeps-bind (lock-Keeps id token) λ t.
      Keeps-bind (Keeps-attempt (kb token)) λ result.
        Keeps-bind (stop_renewal-Keeps result)
          λ settled. Keeps-bind (unlock-Keeps id token) λ t. Keeps-lift settled

  snapshot_session-Keeps :
      (rounds : ℕ) (id : Text) (idle_cutoff : Option ℕ)
      → Keeps Safe (snapshot_session (observed ports) rounds id idle_cutoff)
  unfolding snapshot_session
  snapshot_session-Keeps rounds id idle_cutoff =
      locked-Keeps id
        (λ token. load_settled (observed ports) rounds id token >>= λ sess.
          freeze_at (observed ports) id token sess idle_cutoff)
        λ token.
          Keeps-bind (load_settled-Keeps ports rounds id token)
            λ sess. freeze_at-Keeps id token sess idle_cutoff

-- `snapshot`, with its recovery of an interrupted freeze, stops pods only after a record that says the archive is
-- durably committed was read from the store or written to it, whatever the ports answer.
pub snapshot_session-stops_after_commit :
    {W : Type 0} (ports : Ports W) (rounds : ℕ) (id : Text) (idle_cutoff : Option ℕ) (w : W)
    → stops_after_commit (snapshot_session (observed ports) rounds id idle_cutoff (w, [])).1.1
      ≡ true
snapshot_session-stops_after_commit ports rounds id idle_cutoff w =
    (snapshot_session-Keeps ports rounds id idle_cutoff).at (w, []) refl
