-- ===== src/Service/Rounds.antt =====
-- control-plane/internal/service/manager.go: `recoverSnapshotLocked` calls itself again after a claim that met a
-- conflict; how many rounds it needs.
use session_platform.Prelude.{ℕ, suc, ◌≡◌, false, Option, Text, arith, err, Action}
use session_platform.Session.Errors.{Error, is, conflict}
use session_platform.Session.Types.{State}
use session_platform.Session.Record.{Session, SnapshotTransaction}
use session_platform.Service.Ports.{Ports}
use session_platform.Service.Recovery.{
  recover_preparing, recover_transaction, recover_round, recover_snapshot_locked,
}

module _ {W : Type 0} (ports : Ports W) where
  -- No swap is answered by a conflict: nobody else writes the record meanwhile.
  abbrev pub Undisturbed : Type 0
  Undisturbed =
      (id token : Text) (state : State) (txn : Option SnapshotTransaction) (next : Session) (w : W)
      (e : Error)
      → (ports.store.compare_and_swap_session id token state txn next w).0 ≡ err e
      → is conflict e ≡ false

  module _ (one two : Session → Action W Error Session) where
    recover_round_undisturbed :
        Undisturbed
        → (sess : Session) (token : Text) (w : W)
        → recover_round ports one sess token w ≡ recover_round ports two sess token w
    unfolding recover_round recover_transaction recover_preparing
    recover_round_undisturbed calm sess token w = grind (arith, calm)

-- Where no swap meets a conflict, one round of recovery does all: it never asks for another one, since the run is the
-- same whatever a further round would do.
pub recover_snapshot_locked-one_round :
    {W : Type 0} (ports : Ports W) (more : ℕ) (again : Session → Action W Error Session)
    (sess : Session) (token : Text) (w : W)
    → Undisturbed ports
    → recover_snapshot_locked ports (suc more) sess token w ≡ recover_round ports again sess token w
unfolding recover_snapshot_locked
recover_snapshot_locked-one_round ports more again sess token w calm =
    recover_round_undisturbed ports (λ s. recover_snapshot_locked ports more s token) again calm
      sess token w
