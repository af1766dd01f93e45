-- ===== src/Service/Frozen.antt =====
-- control-plane/internal/service/manager.go: the sessions that `snapshot` and recovery return.
use session_platform.Prelude.{
  ℕ, ◌≡◌, refl, Bool, true, false, Option, none, some, Text, ltb, arith, Result, ok, err, Action,
  subst, lift, attempt, ◌>>=◌,
}
use session_platform.Prelude.Runs.{
  Returns, Gives, Gives-bind, Gives-after, Gives-handle, Gives-pure, Gives-raise, Runs-if,
}
use session_platform.Session.Errors.{Error, is, conflict}
use session_platform.Session.Types.{state_eq}
use session_platform.Session.Record.{Session, Checkpoint, SnapshotTransaction}
use session_platform.Pods.{named}
use session_platform.Service.Ports.{Ports, Checkpointer}
use session_platform.Service.Slots.{auth_slot_signed_in, release_auth_slot_best_effort}
use session_platform.Service.Helpers.{
  check_context, get, touch_get, holding_for_approval, checkpointer_for, locked, unlock_best_effort,
  stop_renewal, with_renewal, session_pod_refs,
}
use session_platform.Service.Transactions.{
  is_snapshot, with_transaction, preparing_transaction, committed, settled_snapshot,
  finalize_snapshot_locked, finalize_with, fail_with, rollback_preparing_snapshot,
}
use session_platform.Service.Freeze.{
  reclaim_committed, commit_snapshot, checkpoint_failed, snapshot_with_transaction_locked,
}
use session_platform.Service.Snapshot.{
  load_settled, freeze, freeze_if_idle, freeze_at, snapshot_session,
}

-- A frozen record with no transaction in flight.
abbrev Settled : Session → Type 0
Settled sess = settled_snapshot sess ≡ true

-- What a call answers: for an explicit snapshot the session is frozen, and a freeze that this call made is finished.
abbrev pub answers_frozen : Option ℕ → Session × Bool → Bool
answers_frozen none (sess, false) = is_snapshot sess
answers_frozen (some cutoff) (sess, false) = true
answers_frozen idle_cutoff (sess, true) = settled_snapshot sess

abbrev Answer : Option ℕ → Session × Bool → Type 0
Answer idle_cutoff r = answers_frozen idle_cutoff r ≡ true

module _ {W : Type 0} (ports : Ports W) where
  finalize-Gives :
      (sess : Session) (token : Text) → Gives Settled (finalize_snapshot_locked ports sess token)
  unfolding finalize_snapshot_locked finalize_with get state_eq
  finalize-Gives sess token = record { at = λ w h. returned w }
    where
      returned : (w : W) → Returns Settled (finalize_snapshot_locked ports sess token w)
      returned w = ground arith

  reclaim_committed-Gives :
      (sess : Session) (generation : Text) → Gives Settled (reclaim_committed ports sess generation)
  unfolding reclaim_committed
  reclaim_committed-Gives sess generation = Gives-after (check_context ports) λ t.
      Gives-after (auth_slot_signed_in ports sess) λ signed_in.
        Gives-after (ports.orch.stop (session_pod_refs sess)) λ t.
          Gives-bind Settled (finalize-Gives sess generation) λ frozen done.
            Gives-after
              (release_auth_slot_best_effort ports frozen.workload_type frozen.id signed_in)
              λ t. Gives-pure frozen done

  fail_with-Gives : (m : Action W Error Error) → Gives Settled (fail_with ports m)
  fail_with-Gives m = Gives-after m λ e. Gives-raise e

  commit_snapshot-Gives :
      (sess : Session) (generation : Text) (ckpt : Checkpointer W) (txn : SnapshotTransaction)
      (cp : Checkpoint)
      → Gives Settled (commit_snapshot ports sess generation ckpt txn cp)
  unfolding commit_snapshot
  commit_snapshot-Gives sess generation ckpt txn cp = Gives-after (check_context ports) λ t.
      Gives-handle
        (ports.store.compare_and_swap_session sess.id generation sess.state (some txn) next)
        (λ e.
          Runs-if (is conflict e)
            (λ lost. fail_with-Gives (rollback_preparing_snapshot ports sess ckpt e))
            λ kept. Gives-raise e)
        λ t. reclaim_committed-Gives next generation
    where
      next : Session
      next = with_transaction sess (some (committed txn cp))

  checkpoint_failed-Gives :
      (sess : Session) (ckpt : Checkpointer W) (e : Error)
      → Gives Settled (checkpoint_failed ports sess ckpt e)
  checkpoint_failed-Gives sess ckpt e = record { at = λ w h. by_context (ports.ctx_err w) w }
    where
      by_context :
          (c : Option Error) (w : W)
          → Returns Settled (elim c as (λ o. Result Error Session × W) [
            | some c' ↦ (err e, w)
            | none ↦ fail_with ports (rollback_preparing_snapshot ports sess ckpt e) w
          ])
      by_context none w = (fail_with-Gives (rollback_preparing_snapshot ports sess ckpt e)).at w tt
      by_context (some c') w = tt

  pub snapshot_with_transaction_locked-Gives :
      (sess : Session) (generation : Text) (ckpt : Checkpointer W)
      → Gives Settled (snapshot_with_transaction_locked ports sess generation ckpt)
  unfolding snapshot_with_transaction_locked
  snapshot_with_transaction_locked-Gives sess generation ckpt =
      Gives-after
        (ports.store.compare_and_swap_session sess.id generation sess.state
          sess.snapshot_transaction next)
        λ t. Gives-after (check_context ports) λ t.
          Gives-handle (ckpt.checkpoint_with_generation (named sess.pod) generation)
            (λ e. checkpoint_failed-Gives next ckpt e)
            λ cp. commit_snapshot-Gives next generation ckpt txn cp
    where
      txn : SnapshotTransaction
      txn = preparing_transaction generation sess.pod

      next : Session
      next = with_transaction sess (some txn)

  freeze-Gives :
      (sess : Session) (token : Text) (idle_cutoff : Option ℕ)
      → Gives (Answer idle_cutoff) (freeze ports sess token)
  unfolding freeze
  freeze-Gives sess token idle_cutoff =
      Runs-if (is_snapshot sess) (λ frozen. Gives-pure (sess, false) (already idle_cutoff frozen))
        λ live. Gives-after (lift (checkpointer_for ports sess.workload_type)) λ ckpt.
          Gives-bind Settled (snapshot_with_transaction_locked-Gives sess token ckpt)
            λ frozen done. Gives-pure (frozen, true) (finished idle_cutoff frozen done)
    where
      already : (c : Option ℕ) → is_snapshot sess ≡ true → Answer c (sess, false)
      already none frozen = frozen
      already (some cutoff) frozen = refl

      finished : (c : Option ℕ) (frozen : Session) → Settled frozen → Answer c (frozen, true)
      finished none frozen done = done
      finished (some cutoff) frozen done = done

  freeze_at-Gives :
      (id token : Text) (sess : Session) (idle_cutoff : Option ℕ)
      → Gives (Answer idle_cutoff) (freeze_at ports id token sess idle_cutoff)
  unfolding freeze_if_idle
  freeze_at-Gives id token sess none = freeze-Gives sess token none
  freeze_at-Gives id token sess (some cutoff) = Gives-after (get ports id) λ now.
      Runs-if (ltb cutoff now.last_access) (λ used. Gives-pure (now, false) refl)
        λ idle. Gives-after (holding_for_approval ports now) λ holding.
          Runs-if holding (λ held. Gives-after (touch_get ports id) λ s. Gives-pure (s, false) refl)
            λ free. freeze-Gives now token (some cutoff)

  locked-Gives :
      {A : Type 0} {Q : A → Type 0} (id : Text) (body : Text → Action W Error A)
      → ((token : Text) → Gives Q (body token))
      → Gives Q (locked ports id body)
  unfolding locked
  locked-Gives {A} {Q} id body kb = Gives-after ports.new_id λ token.
      Gives-after (ports.store.lock id token) λ t.
        Gives-bind OnOk {m = attempt (body token)} (record { at = λ w h. kb_at token w })
          λ result q.
            Gives-bind OnOk {m = stop_renewal ports result}
              (record { at = λ w h. renewed result (ports.renewal_err w) q })
              λ settled q'. Gives-after (unlock_best_effort ports id token) λ t. lifted settled q'
    where
      OnOk : Result Error A → Type 0
      OnOk (ok a) = Q a
      OnOk (err e) = Unit

      of_run : (r : Result Error A × W) → Returns Q r → OnOk r.0
      of_run (ok a, w) q = q
      of_run (err e, w) q = tt

      kb_at : (token : Text) (w : W) → OnOk (body token w).0
      kb_at token w = of_run (body token w) ((kb token).at w tt)

      renewed : (r : Result Error A) (o : Option Error) → OnOk r → OnOk (with_renewal r o)
      renewed r none q = q
      renewed (ok a) (some e) q = tt
      renewed (err c) (some e) q = tt

      lifted : (r : Result Error A) → OnOk r → Gives {W = W} Q (lift r)
      lifted (ok a) q = record { at = λ w h. q }
      lifted (err e) q = record { at = λ w h. tt }

-- `Snapshot` returns a frozen session, and when a call of `snapshot` says that it froze the session, the
-- record that it returns is frozen with no transaction in flight.
pub snapshot_session-answers_frozen :
    {W : Type 0} (ports : Ports W) (rounds : ℕ) (id : Text) (idle_cutoff : Option ℕ) (w w' : W)
    (answer : Session × Bool)
    → snapshot_session ports rounds id idle_cutoff w ≡ (ok answer, w')
    → answers_frozen idle_cutoff answer ≡ true
unfolding snapshot_session
snapshot_session-answers_frozen {W} ports rounds id idle_cutoff w w' answer h =
    subst (λ r. Returns (Answer idle_cutoff) r) h
      ((locked-Gives ports id
          (λ token. load_settled ports rounds id token >>= λ sess.
            freeze_at ports id token sess idle_cutoff)
          (λ token.
            Gives-after (load_settled ports rounds id token)
              λ sess. freeze_at-Gives ports id token sess idle_cutoff)).at
        w tt)
