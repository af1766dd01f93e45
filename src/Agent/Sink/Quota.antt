-- ===== src/Agent/Sink/Quota.antt =====
-- The quota of an invocation in data-plane/cmd/agent/claude_stream.go, `claudeOutputSink`.
use session_platform.Prelude.{
  ℕ, ◌+◌, ◌≤◌, ◌<◌, ◌≡◌, sym, ◌∙◌, subst, Bool, true, false, not, ◌&&◌, ◌||◌, List, [], ◌∷◌, arith,
  length, ◌==◌, if◌then◌else◌, Bool-cases, inl, inr,
}
use session_platform.Agent.Bytes.{Bytes, take}
use session_platform.Agent.Scrollback.{Scrollback}
use session_platform.Agent.Redactor.{Redactor}
use session_platform.Agent.Workload.{claude_output_limit_marker}
use session_platform.Agent.Sink.{
  Sink, new_claude_output_sink, append_session, can_emit, emit, append_bounded, write, finished,
  flushed, close, write_all,
}
use session_platform.Agent.Sink.Flow.{
  final_marker, Within, length-append_session, append_session-same, Flowing, emit-Flowing, received,
  received-Flowing, cut_off-Within,
}

run_limit-emit : (s : Sink) → (emit s).run_limit ≡ s.run_limit
unfolding emit
run_limit-emit s = ground (arith, append_session-same (take (can_emit s) s.run_pending) s)

append_bounded-Within :
    (base limit : ℕ) (p : Bytes) (s : Sink)
    → Within base limit s
    → Within base limit (append_bounded p s)
unfolding append_bounded
append_bounded-Within base limit p s h =
    elim (Bool-cases ((length p == 0) || (s.truncated || s.session_full))) [
      | inl e ↦ rw (append_bounded, e) h
      | inr e ↦
          rw (append_bounded, e, unlimited)
            (cut_off-Within base limit (emit (received p s))
              (run_limit-emit (received p s) ∙ h.limited)
              (subst (λ limit. 0 < limit) (sym (run_limit-emit (received p s))) h.positive)
              (emit-Flowing base (received p s)
                (received-Flowing base p s (flowing (ground arith)))))
    ]
  where
    unlimited : (s.run_limit == 0) ≡ false
    unlimited = ground (arith, h.positive)

    flowing : s.truncated ≡ false → Flowing base s
    flowing t = record {
      running = t;
      quota = h.emitted;
      accounted = h.counted t;
      room = h.stored t;
    }

redactor-Within :
    (base limit : ℕ) (r : Redactor) (s : Sink)
    → Within base limit s
    → Within base limit (record s { redactor = r })
redactor-Within base limit r s h = record {
  limited = h.limited;
  positive = h.positive;
  emitted = h.emitted;
  counted = h.counted;
  seen = h.seen;
  stored = h.stored;
  cut = h.cut;
  dropped = h.dropped;
}

write-Within :
    (base limit : ℕ) (p : Bytes) (s : Sink) → Within base limit s → Within base limit (write p s)
unfolding write
write-Within base limit p s h =
    elim (Bool-cases ((length p == 0) || (s.closed || (s.truncated || s.session_full)))) [
      | inl e ↦ rw (write, e) h
      | inr e ↦
          rw (write, e) (append_bounded-Within base limit _ _ (redactor-Within base limit _ s h))
    ]

finished-Within : (base limit : ℕ) (s : Sink) → Within base limit s → Within base limit (finished s)
finished-Within base limit s h = elim (Bool-cases (not s.truncated && not s.session_full)) [
  | inl e ↦ rw e (append_bounded-Within base limit _ _ (redactor-Within base limit _ s h))
  | inr e ↦ rw e h
]

-- What the invocation has put into the record.
abbrev pub Stored : ℕ → ℕ → Sink → Type 0
Stored base limit s = length s.out.buf ≤ base + limit + final_marker s

flushed-Stored : (base limit : ℕ) (s : Sink) → Within base limit s → Stored base limit (flushed s)
flushed-Stored base limit s h =
    elim (Bool-cases (not s.truncated && not (length s.run_pending == 0))) [
      | inr e ↦ rw e (elim (Bool-cases s.truncated) [
        | inl t ↦ omega (arith, h.cut t, h.limited)
        | inr f ↦ omega (arith, h.stored f, h.emitted, h.limited)
      ])
      | inl e ↦ rw e (flush (ground arith))
    ]
  where
    flush :
        s.truncated ≡ false
        → length (append_session s.run_pending s).out.buf
          ≤ base + limit + final_marker (append_session s.run_pending s)
    flush f =
        omega (
          arith,
          length-append_session s.run_pending s,
          h.stored f,
          h.counted f,
          h.seen f,
          h.limited,
        )

close-Stored : (base limit : ℕ) (s : Sink) → Within base limit s → Stored base limit (close s)
unfolding close
close-Stored base limit s h =
    either s.closed s (flushed (finished s))
      (elim (Bool-cases s.truncated) [
        | inl t ↦ omega (arith, h.cut t, h.limited)
        | inr f ↦ omega (arith, h.stored f, h.emitted, h.limited)
      ])
      (flushed-Stored base limit (finished s) (finished-Within base limit s h))
  where
    either :
        (c : Bool) (s s' : Sink)
        → Stored base limit s
        → Stored base limit s'
        → Stored base limit (if c then s else record s' { closed = true })
    either true s s' hs hs' = hs
    either false s s' hs hs' = hs'

write_all-Stored :
    (base limit : ℕ) (ps : List Bytes) (s : Sink)
    → Within base limit s
    → Stored base limit (write_all ps s)
unfolding write_all
write_all-Stored base limit [] s h = close-Stored base limit s h
write_all-Stored base limit (p ∷ ps) s h =
    write_all-Stored base limit ps (write p s) (write-Within base limit p s h)

new-Within :
    (out : Scrollback) (redact : List Bytes) (run_limit scrollback_limit : ℕ)
    → 0 < run_limit
    → Within
        (length out.buf)
        run_limit
        (new_claude_output_sink out redact run_limit scrollback_limit)
unfolding new_claude_output_sink
new-Within out redact run_limit scrollback_limit h = ground arith

-- Whatever an invocation writes, in whatever pieces, by the end of it the record has grown by no more
-- than the quota of an invocation, and by the final marker where the session's limit was met.
pub write_all-within :
    (out : Scrollback) (redact : List Bytes) (run_limit scrollback_limit : ℕ) (ps : List Bytes)
    → 0 < run_limit
    → let s = write_all ps (new_claude_output_sink out redact run_limit scrollback_limit) in
      length s.out.buf
      ≤ length out.buf
        + run_limit
        + (if s.session_full then length claude_output_limit_marker else 0)
write_all-within out redact run_limit scrollback_limit ps h =
    write_all-Stored (length out.buf) run_limit ps _
      (new-Within out redact run_limit scrollback_limit h)
