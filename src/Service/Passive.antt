-- ===== src/Service/Passive.antt =====
-- control-plane/internal/service/manager.go: what a call on a session does besides its work.
use session_platform.Prelude.{
  ℕ, ◌≡◌, Bool, true, false, List, [], ◌∷◌, Text, all, ◌&&◌, text_eq, text_eq_refl, arith, ok,
}
use session_platform.Service.Ports.{Ports}
use session_platform.Service.Observed.{Trace, Event, reads, fails, touches, writes, observed}
use session_platform.Service.Helpers.{get, touch}
use session_platform.Service.Access.{WriteResult, stream, write}

abbrev pub is_passive : Event → Bool
is_passive (reads sess) = true
is_passive fails = true
is_passive _ = false

-- `Stream` changes nothing: on every path it only reads the record. It takes no lock, moves no access time, and
-- neither restores nor activates the session.
pub stream-is_passive :
    {W : Type 0} (ports : Ports W) (id : Text) (offset : ℕ) (w : W)
    → all is_passive (stream (observed ports) id offset (w, [])).1.1 ≡ true
unfolding stream get
stream-is_passive ports id offset w = ground arith

-- The newest events are the acceptance of the payload by the pod and the attempt to move the session's access time.
abbrev pub delivered_then_touched : (id pod payload : Text) → Trace → Bool
delivered_then_touched id pod payload (touches id' b ∷ writes pod' payload' true ∷ t) =
    text_eq id' id && (text_eq pod' pod && text_eq payload' payload)
delivered_then_touched id pod payload _ = false

-- A `Write` that succeeds ended with the acceptance of exactly the payload by the agent of the pod of the session
-- that it returns, and then, as the last thing, the attempt to move this session's access time, which may fail
-- without failing the `Write`.
pub write-touches_last :
    {W : Type 0} (ports : Ports W) (rounds : ℕ) (id : Text) (payload : List ℕ) (w : W)
    (r : WriteResult) (s : W × Trace)
    → write (observed ports) rounds id payload (w, []) ≡ (ok r, s)
    → delivered_then_touched id r.session.pod payload s.1 ≡ true
unfolding write touch
write-touches_last ports rounds id payload w r s h =
    ground (arith, h, text_eq_refl id, text_eq_refl r.session.pod, text_eq_refl payload)
