-- ===== src/Agent/Workload/Admission.antt =====
-- data-plane/cmd/agent/claude.go: writes, restores, plugin refreshes and the end of a workload.
use session_platform.Prelude.{
  ℕ, ◌+◌, ◌%◌, ◌^◌, Bool, true, false, not, ◌&&◌, ◌||◌, none, [], ◌∷◌, ◌++◌, length, ltb, leb, ◌==◌,
  if◌then◌else◌, Action, pure, raise,
}
use session_platform.Agent.Bytes.{Bytes}
use session_platform.Agent.Scrollback.{claude_full_at}
use session_platform.Agent.Scrollback as Scrollback
use session_platform.Agent.Workload.{
  ClaudeError, awaiting_restore, admission_closed, queue_full, output_full, already_ready, stopping,
  refresh_unsupported, refresh_running, refresh_busy, Workload, max_claude_queued_prompts,
  max_claude_queued_bytes, claude_output_limit_marker,
}

unfoldable pub queue_is_full : Workload → Bytes → Bool
queue_is_full c prompt =
    leb max_claude_queued_prompts (length c.queue)
    || ltb max_claude_queued_bytes (c.queued_bytes + length prompt)

abbrev pub accepted : Workload → Bytes → Workload
accepted c prompt =
    let seq = (c.enqueued + 1) % 2 ^ 64 in
    record c {
      enqueued = seq;
      queue = c.queue ++ record { prompt = prompt; seq = seq } ∷ [];
      queued_bytes = c.queued_bytes + length prompt;
    }

unfoldable pub enqueue : Bytes → Action Workload ClaudeError Unit
enqueue prompt c =
    if c.stopping
    then raise stopping c
    else if not c.ready
    then raise awaiting_restore c
    else if not c.accepting
    then raise admission_closed c
    else if claude_full_at c.out c.scrollback_limit claude_output_limit_marker
    then raise output_full c
    else if queue_is_full c prompt
    then raise queue_full c
    else pure tt (accepted c prompt)

-- The second call of `Close` only waits.
unfoldable pub close : Workload → Workload
close c =
    if c.stopping then c else record c { stopping = true; accepting = false; pending_login = none }

unfoldable pub begin_restore : Action Workload ClaudeError Unit
begin_restore c =
    if c.stopping
    then raise stopping c
    else if c.ready || c.restoring
    then raise already_ready c
    else pure tt (record c { restoring = true })

unfoldable pub finish_failed_restore : Workload → Workload
finish_failed_restore c = record c { restoring = false }

-- `turns` is the number of input markers of the restored record.
unfoldable pub finish_restore : Bytes → (turns : ℕ) (has_run : Bool) → Workload → Workload
finish_restore bytes turns has_run c = record c {
  out = Scrollback.restore c.out bytes;
  turns = turns;
  has_run = has_run;
  ready = true;
  accepting = true;
  restoring = false;
}

unfoldable pub begin_refresh : (supported : Bool) → Action Workload ClaudeError Unit
begin_refresh supported c =
    if not supported
    then raise refresh_unsupported c
    else if c.stopping
    then raise stopping c
    else if not c.ready
    then raise awaiting_restore c
    else if not c.accepting || c.checkpointing
    then raise admission_closed c
    else if c.refreshing
    then raise refresh_running c
    else if c.active || not (length c.queue == 0)
    then raise refresh_busy c
    else pure tt (record c { refreshing = true })

unfoldable pub end_refresh : Workload → Workload
end_refresh c = record c { refreshing = false }

unfoldable pub is_ready : Workload → Bool
is_ready c = c.ready && not c.stopping
