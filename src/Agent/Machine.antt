-- ===== src/Agent/Machine.antt =====
-- data-plane/cmd/agent/claude.go: the goroutines of a workload. They run its critical sections in
-- any order; what a goroutine remembers between two sections is its phase.
pub mod Invariant
pub mod Barrier
pub mod Drain
use session_platform.Prelude.{
  ℕ, Bool, true, false, not, ◌&&◌, ◌||◌, Option, none, some, List, [], ◌∷◌, Text, if◌then◌else◌,
  Result, ok, err,
}
use session_platform.Agent.Bytes.{Bytes}
use session_platform.Agent.Scrollback.{append_claude_bounded_at}
use session_platform.Agent.Workload.{
  ClaudeError, PendingLogin, Workload, fresh_workload, claude_output_limit_marker,
}
use session_platform.Agent.Workload.Admission.{
  enqueue, close, begin_restore, finish_failed_restore, finish_restore, begin_refresh, end_refresh,
}
use session_platform.Agent.Workload.Logins.{hold_prompt, drop_pending_login}
use session_platform.Agent.Workload.Turns.{worker_waits, take_job, skip_turn, finish_turn}
use session_platform.Agent.Workload.Checkpoints.{
  close_admission, is_drained, finish_drain, abort_checkpoint, complete_checkpoint_stream,
  abort_completed_checkpoint,
}

-- The checkpoint request that got past admission: it waits for the queue, or it archives the state.
pub data Handler : Type 0 where
  no_handler : Handler
  draining : Handler
  archiving : Handler

pub record Machine : Type 0 where
  pub workload : Workload
  pub handler : Handler
  -- The running turn resumes a conversation.
  pub resume : Bool

pub data Event : Type 0 where
  write : (prompt : Bytes) → Event
  turn_starts : (now : ℕ) → Event
  turn_has_nothing_to_run : Event
  turn_ends : (succeeded : Bool) → Event
  sign_in_starts : (proc : ℕ) (prompt : Bytes) → Event
  sign_in_dropped : (now : ℕ) (pending : PendingLogin) → Event
  output : (bytes : Bytes) → Event
  checkpoint_starts : (checkpoint_id : Text) → Event
  drain_ends : (expired : Bool) → Event
  archive_fails : Event
  archive_streams : Event
  abort_arrives : (checkpoint_id : Text) → Event
  restore_starts : Event
  restore_fails : Event
  restore_ends : (bytes : Bytes) (turns : ℕ) (has_run : Bool) → Event
  refresh_starts : (supported : Bool) → Event
  refresh_ends : Event
  closes : Event

abbrev pub in_workload : Machine → Workload → Machine
in_workload m c = record m { workload = c }

-- A section outside of its goroutine's phase, or under a wait condition, does not run.
unfoldable pub turn_begins : ℕ → Machine → Machine
turn_begins now m =
    if m.workload.active || (m.workload.stopping || worker_waits m.workload)
    then m
    else elim (take_job now m.workload) [
      | none ↦ m
      | some (turn, c) ↦ record m { workload = c; resume = turn.resume }
    ]

abbrev pub in_turn : Machine → Workload → Machine
in_turn m c = if m.workload.active then in_workload m c else m

-- The checkpoint request goes on only if its section gave no error.
abbrev pub handled : Machine → Handler → {A : Type 0} → Result ClaudeError A × Workload → Machine
handled m next (ok a, c) = record m { workload = c; handler = next }
handled m next (err e, c) = record m { workload = c; handler = no_handler }

unfoldable pub checkpoint_begins : Text → Machine → Machine
checkpoint_begins checkpoint_id m = elim m.handler [
  | no_handler ↦ handled m draining (close_admission checkpoint_id m.workload)
  | _ ↦ in_workload m (close_admission checkpoint_id m.workload).1
]

unfoldable pub drain_returns : Bool → Machine → Machine
drain_returns expired m = elim m.handler [
  | draining ↦
      if m.workload.stopping || (expired || is_drained m.workload)
      then handled m archiving (finish_drain expired m.workload)
      else m
  | _ ↦ m
]

abbrev pub archived : Machine → Workload → Machine
archived m c = elim m.handler [
  | archiving ↦ record m { workload = c; handler = no_handler }
  | _ ↦ m
]

unfoldable pub step : Event → Machine → Machine
step (write prompt) m = in_workload m (enqueue prompt m.workload).1
step (turn_starts now) m = turn_begins now m
step turn_has_nothing_to_run m = in_turn m (skip_turn m.workload)
step (turn_ends succeeded) m = in_turn m (finish_turn m.resume succeeded m.workload)
step (sign_in_starts proc prompt) m = in_turn m (hold_prompt proc prompt m.workload)
step (sign_in_dropped now pending) m = in_workload m (drop_pending_login now pending m.workload).1
step (output bytes) m = in_workload m (record m.workload {
  out =
      (append_claude_bounded_at m.workload.out bytes m.workload.scrollback_limit
        claude_output_limit_marker).1;
})
step (checkpoint_starts checkpoint_id) m = checkpoint_begins checkpoint_id m
step (drain_ends expired) m = drain_returns expired m
step archive_fails m = archived m (abort_checkpoint m.workload)
step archive_streams m = archived m (complete_checkpoint_stream m.workload)
step (abort_arrives checkpoint_id) m =
    in_workload m (abort_completed_checkpoint checkpoint_id m.workload).1
step restore_starts m = in_workload m (begin_restore m.workload).1
step restore_fails m =
    if m.workload.restoring then in_workload m (finish_failed_restore m.workload) else m
step (restore_ends bytes turns has_run) m =
    if m.workload.restoring
    then in_workload m (finish_restore bytes turns has_run m.workload)
    else m
step (refresh_starts supported) m = in_workload m (begin_refresh supported m.workload).1
step refresh_ends m = if m.workload.refreshing then in_workload m (end_refresh m.workload) else m
step closes m = in_workload m (close m.workload)

unfoldable pub run : List Event → Machine → Machine
run [] m = m
run (event ∷ events) m = run events (step event m)

abbrev pub fresh_machine : (restore_mode has_run : Bool) (limit : ℕ) → Machine
fresh_machine restore_mode has_run limit = record {
  workload = fresh_workload restore_mode has_run limit;
  handler = no_handler;
  resume = false;
}
