-- ===== src/Agent/Sink/Flow.antt =====
-- How the output of an invocation is let out in data-plane/cmd/agent/claude_stream.go, `claudeOutputSink`.
use session_platform.Prelude.{
  ℕ, ◌+◌, ◌-◌, ◌≤◌, ◌<◌, ◌≡◌, sym, ◌∙◌, subst, true, false, ◌&&◌, [], ◌++◌, arith, length,
  length-append, ltb, if◌then◌else◌, Bool-cases, inl, inr,
}
use session_platform.Agent.Bytes.{
  Bytes, take, drop, length-take, length-drop, least, valid_utf8_prefix_at_most-le,
}
use session_platform.Agent.Scrollback.Bounded.{append_claude_bounded_at-grows}
use session_platform.Agent.Workload.{claude_output_limit_marker}
use session_platform.Agent.Sink.{
  Sink, claude_run_output_limit_marker, marker_bytes, append_session, can_emit, emit, cut_off,
}

-- Room that the end of the session's record takes once.
abbrev pub final_marker : Sink → ℕ
final_marker s = if s.session_full then length claude_output_limit_marker else 0

-- `base` is the length of the record at the start of the invocation.
pub record Within (base limit : ℕ) (s : Sink) : Type 0 where
  pub limited : s.run_limit ≡ limit
  pub positive : 0 < s.run_limit
  pub emitted : s.run_emitted + marker_bytes s ≤ s.run_limit
  pub counted : s.truncated ≡ false → s.run_seen ≡ s.run_emitted + length s.run_pending
  pub seen : s.truncated ≡ false → s.run_seen ≤ s.run_limit
  pub stored : s.truncated ≡ false → length s.out.buf ≤ base + s.run_emitted + final_marker s
  pub cut : s.truncated ≡ true → length s.out.buf ≤ base + s.run_limit + final_marker s
  pub dropped : s.truncated ≡ true → s.run_pending ≡ []

pub length-append_session :
    (p : Bytes) (s : Sink)
    → length (append_session p s).out.buf + final_marker s
      ≤ length s.out.buf + length p + final_marker (append_session p s)
unfolding append_session
length-append_session p s =
    ground
      (arith, append_claude_bounded_at-grows s.out p s.scrollback_limit claude_output_limit_marker)

pub append_session-same :
    (p : Bytes) (s : Sink)
    → ((append_session p s).run_limit ≡ s.run_limit)
      × ((append_session p s).run_seen ≡ s.run_seen)
      × ((append_session p s).run_emitted ≡ s.run_emitted)
      × ((append_session p s).run_pending ≡ s.run_pending)
      × ((append_session p s).truncated ≡ s.truncated)
unfolding append_session
append_session-same p s = ground arith

-- Between two pieces of the projected output nothing is cut off, and the bytes are accounted for.
pub record Flowing (base : ℕ) (s : Sink) : Type 0 where
  pub running : s.truncated ≡ false
  pub quota : s.run_emitted + marker_bytes s ≤ s.run_limit
  pub accounted : s.run_seen ≡ s.run_emitted + length s.run_pending
  pub room : length s.out.buf ≤ base + s.run_emitted + final_marker s

can_emit-le :
    (s : Sink)
    → (can_emit s ≤ s.run_limit - marker_bytes s - s.run_emitted)
      × (can_emit s ≤ length s.run_pending)
unfolding can_emit
can_emit-le s = ground (
  arith,
  valid_utf8_prefix_at_most-le s.run_pending
      (least (s.run_limit - marker_bytes s - s.run_emitted) (length s.run_pending)),
)

pub emit-Flowing : (base : ℕ) (s : Sink) → Flowing base s → Flowing base (emit s)
unfolding emit
emit-Flowing base s h =
    elim (Bool-cases (ltb s.run_emitted (s.run_limit - marker_bytes s) && ltb 0 (can_emit s))) [
      | inr e ↦ rw (emit, e) h
      | inl e ↦
          rw (emit, e)
            record {
              running = same.4 ∙ h.running;
              quota = subst Quota (sym same.0) (ground (arith, can_emit-le s, h.quota));
              accounted = omega (arith, same.1, h.accounted, can_emit-le s, left);
              room = omega (arith, length-append_session sent s, h.room, taken);
            }
    ]
  where
    sent : Bytes
    sent = take (can_emit s) s.run_pending

    same :
        ((append_session sent s).run_limit ≡ s.run_limit)
        × ((append_session sent s).run_seen ≡ s.run_seen)
        × ((append_session sent s).run_emitted ≡ s.run_emitted)
        × ((append_session sent s).run_pending ≡ s.run_pending)
        × ((append_session sent s).truncated ≡ s.truncated)
    same = append_session-same sent s

    left : length (drop (can_emit s) s.run_pending) ≡ length s.run_pending - can_emit s
    left = length-drop (can_emit s) s.run_pending

    taken : length sent ≡ can_emit s
    taken = length-take (can_emit s) s.run_pending (can_emit-le s).1

    Quota : ℕ → Type 0
    Quota limit =
        s.run_emitted + can_emit s + least (length claude_run_output_limit_marker) limit ≤ limit

abbrev pub received : Bytes → Sink → Sink
received p s = record s { run_seen = s.run_seen + length p; run_pending = s.run_pending ++ p }

pub received-Flowing :
    (base : ℕ) (p : Bytes) (s : Sink) → Flowing base s → Flowing base (received p s)
received-Flowing base p s h = record {
  running = h.running;
  quota = h.quota;
  accounted = omega (arith, h.accounted, length-append s.run_pending p);
  room = h.room;
}

pub cut_off-Within :
    (base limit : ℕ) (s : Sink)
    → s.run_limit ≡ limit
    → 0 < s.run_limit
    → Flowing base s
    → Within base limit (cut_off s)
unfolding cut_off
cut_off-Within base limit s hl h0 h = elim (Bool-cases (ltb s.run_limit s.run_seen)) [
  | inr e ↦
      rw (cut_off, e)
        record {
          limited = hl;
          positive = h0;
          emitted = h.quota;
          counted = λ _. h.accounted;
          seen = λ _. ground arith;
          stored = λ _. h.room;
          cut = λ t. absurd (ground (arith, h.running));
          dropped = λ t. absurd (ground (arith, h.running));
        }
  | inl e ↦
      rw (cut_off, e)
        record {
          limited = same.0 ∙ hl;
          positive = subst (λ limit. 0 < limit) (sym same.0) h0;
          emitted =
              subst
                (λ limit.
                  s'.run_emitted + least (length claude_run_output_limit_marker) limit ≤ limit)
                (sym same.0) (omega (arith, same.2, h.quota));
          counted = λ t. absurd (ground arith);
          seen = λ t. absurd (ground arith);
          stored = λ t. absurd (ground arith);
          cut = λ _.
              omega (arith, same.0, length-append_session marker emptied, h.room, h.quota, taken);
          dropped = λ _. same.3;
        }
]
  where
    emptied : Sink
    emptied = record s { run_pending = [] }

    marker : Bytes
    marker = take (marker_bytes s) claude_run_output_limit_marker

    s' : Sink
    s' = append_session marker emptied

    same :
        (s'.run_limit ≡ s.run_limit)
        × (s'.run_seen ≡ s.run_seen)
        × (s'.run_emitted ≡ s.run_emitted)
        × (s'.run_pending ≡ [])
        × (s'.truncated ≡ s.truncated)
    same = append_session-same marker emptied

    taken : length marker ≡ marker_bytes s
    taken = length-take (marker_bytes s) claude_run_output_limit_marker (ground arith)
