-- ===== src/Agent/Sink.antt =====
-- data-plane/cmd/agent/claude_stream.go, `claudeOutputSink`: the output of one invocation on its way
-- into the session's record.
pub mod Flow
pub mod Quota
use session_platform.Prelude.{
  ℕ, ◌+◌, ◌-◌, Bool, true, false, not, ◌&&◌, ◌||◌, List, [], ◌∷◌, ◌++◌, length, ltb, ◌==◌,
  if◌then◌else◌, codes,
}
use session_platform.Agent.Bytes.{Bytes, take, drop, least, valid_utf8_prefix_at_most}
use session_platform.Agent.Scrollback.{Scrollback, append_claude_bounded_at}
use session_platform.Agent.Redactor.{Redactor, new_streaming_redactor, push, finish}
use session_platform.Agent.Workload.{claude_output_limit_marker}

abbrev pub claude_run_output_limit_marker : Bytes
claude_run_output_limit_marker =
    10 ∷ (codes "[session-platform: invocation output truncated at 16 MiB]" ++ 10 ∷ [])

-- `claudeTurnSentinel`
abbrev pub claude_turn_sentinel : ℕ
claude_turn_sentinel = 30

unfoldable pub without_turn_sentinel : Bytes → Bytes
without_turn_sentinel [] = []
without_turn_sentinel (x ∷ xs) =
    if x == claude_turn_sentinel then without_turn_sentinel xs else x ∷ without_turn_sentinel xs

pub record Sink : Type 0 where
  pub out : Scrollback
  pub redactor : Redactor
  pub run_limit : ℕ
  pub scrollback_limit : ℕ
  pub run_seen : ℕ
  pub run_emitted : ℕ
  pub run_pending : Bytes
  pub truncated : Bool
  pub closed : Bool
  pub session_full : Bool

unfoldable pub new_claude_output_sink : Scrollback → List Bytes → ℕ → ℕ → Sink
new_claude_output_sink out redact run_limit scrollback_limit = record {
  out = out;
  redactor = new_streaming_redactor redact;
  run_limit = run_limit;
  scrollback_limit = scrollback_limit;
  run_seen = 0;
  run_emitted = 0;
  run_pending = [];
  truncated = false;
  closed = false;
  session_full = false;
}

unfoldable pub append_session : Bytes → Sink → Sink
append_session p s =
    let (full, out) =
      append_claude_bounded_at s.out p s.scrollback_limit claude_output_limit_marker in
    if (length p == 0) || s.session_full then s else record s { out = out; session_full = full }

abbrev pub marker_bytes : Sink → ℕ
marker_bytes s = least (length claude_run_output_limit_marker) s.run_limit

-- How many of the pending bytes the quota lets out now.
unfoldable pub can_emit : Sink → ℕ
can_emit s =
    valid_utf8_prefix_at_most s.run_pending
      (least (s.run_limit - marker_bytes s - s.run_emitted) (length s.run_pending))

unfoldable pub emit : Sink → Sink
emit s =
    let size = can_emit s in
    let s' = append_session (take size s.run_pending) s in
    if ltb s.run_emitted (s.run_limit - marker_bytes s) && ltb 0 size
    then record s' { run_emitted = s.run_emitted + size; run_pending = drop size s.run_pending }
    else s

unfoldable pub cut_off : Sink → Sink
cut_off s =
    let s' =
      append_session (take (marker_bytes s) claude_run_output_limit_marker)
        (record s { run_pending = [] }) in
    if ltb s.run_limit s.run_seen then record s' { truncated = true } else s

unfoldable pub append_bounded : Bytes → Sink → Sink
append_bounded p s =
    if (length p == 0) || (s.truncated || s.session_full)
    then s
    else if s.run_limit == 0
    then append_session p s
    else cut_off
        (emit (record s { run_seen = s.run_seen + length p; run_pending = s.run_pending ++ p }))

unfoldable pub write : Bytes → Sink → Sink
write p s =
    let (out, redactor) = push s.redactor (without_turn_sentinel p) in
    if (length p == 0) || (s.closed || (s.truncated || s.session_full))
    then s
    else append_bounded out (record s { redactor = redactor })

abbrev pub finished : Sink → Sink
finished s =
    let (out, redactor) = finish s.redactor in
    if not s.truncated && not s.session_full
    then append_bounded out (record s { redactor = redactor })
    else s

abbrev pub flushed : Sink → Sink
flushed s =
    let s' = append_session s.run_pending s in
    if not s.truncated && not (length s.run_pending == 0) then record s' { run_pending = [] } else s

unfoldable pub close : Sink → Sink
close s = if s.closed then s else record (flushed (finished s)) { closed = true }

-- The writes of an invocation, and its end.
unfoldable pub write_all : List Bytes → Sink → Sink
write_all [] s = close s
write_all (p ∷ ps) s = write_all ps (write p s)
