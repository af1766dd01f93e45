-- ===== src/Agent/Machine/Barrier.antt =====
-- The checkpoint barrier of data-plane/cmd/agent/claude.go between the end of its drain and the end
-- of the checkpoint.
use session_platform.Prelude.{ℕ, ◌≡◌, ◌⊎◌, Bool, true, false, List, Text, text_eq_sound, arith}
use session_platform.Agent.Workload.Admission.{
  enqueue, close, begin_restore, finish_failed_restore, finish_restore, begin_refresh, end_refresh,
}
use session_platform.Agent.Workload.Logins.{hold_prompt, drop_pending_login}
use session_platform.Agent.Workload.Turns.{worker_waits, take_job, skip_turn, finish_turn}
use session_platform.Agent.Workload.Checkpoints.{
  close_admission, abort_checkpoint, complete_checkpoint_stream, abort_completed_checkpoint,
  reopen_checkpoint,
}
use session_platform.Agent.Machine.{
  archiving, Machine, Event, write, turn_starts, turn_has_nothing_to_run, turn_ends, sign_in_starts,
  sign_in_dropped, output, checkpoint_starts, drain_ends, archive_fails, archive_streams,
  abort_arrives, restore_starts, restore_fails, restore_ends, refresh_starts, refresh_ends, closes,
  turn_begins, checkpoint_begins, drain_returns, step, run, fresh_machine,
}
use session_platform.Agent.Machine.Invariant.{Inv, Still, run-Inv}

-- The drain is over: the state is being archived, or it was archived in full.
abbrev pub Settled : Machine → Type 0
Settled m = (m.handler ≡ archiving) ⊎ (m.workload.checkpoint_ready ≡ true)

-- What an event leaves of it.
abbrev pub Frozen : Event → Machine → Machine → Type 0
Frozen event m m' =
    ((m'.workload.checkpointing ≡ false)
      × ((event ≡ archive_fails) ⊎ (event ≡ abort_arrives m.workload.checkpoint_id)))
    ⊎ (Settled m'
        × Still m'.workload
        × (m'.workload.has_run ≡ m.workload.has_run)
        × (m'.workload.turns ≡ m.workload.turns)
        × (m'.workload.checkpoint_id ≡ m.workload.checkpoint_id))

abort_arrives-Frozen :
    (id : Text) (m : Machine)
    → Inv m
    → Settled m
    → Frozen (abort_arrives id) m (step (abort_arrives id) m)
unfolding step abort_completed_checkpoint reopen_checkpoint
abort_arrives-Frozen id m h s = ground (arith, text_eq_sound id m.workload.checkpoint_id)

step-Frozen : (event : Event) (m : Machine) → Inv m → Settled m → Frozen event m (step event m)
unfolding step skip_turn finish_turn hold_prompt drop_pending_login abort_checkpoint
    reopen_checkpoint complete_checkpoint_stream begin_restore finish_failed_restore finish_restore
    end_refresh begin_refresh enqueue close turn_begins worker_waits take_job checkpoint_begins
    close_admission drain_returns
step-Frozen (write prompt) m h s = ground arith
step-Frozen (turn_starts now) m h s = ground arith
step-Frozen turn_has_nothing_to_run m h s = ground arith
step-Frozen (turn_ends succeeded) m h s = ground arith
step-Frozen (sign_in_starts proc prompt) m h s = ground arith
step-Frozen (sign_in_dropped now pending) m h s = ground arith
step-Frozen (output bytes) m h s = ground arith
step-Frozen (checkpoint_starts id) m h s = ground arith
step-Frozen (drain_ends expired) m h s = ground arith
step-Frozen archive_fails m h s = ground arith
step-Frozen archive_streams m h s = ground arith
step-Frozen (abort_arrives id) m h s = abort_arrives-Frozen id m h s
step-Frozen restore_starts m h s = ground arith
step-Frozen restore_fails m h s = ground arith
step-Frozen (restore_ends bytes turns has_run) m h s = ground arith
step-Frozen (refresh_starts supported) m h s = ground arith
step-Frozen refresh_ends m h s = ground arith
step-Frozen closes m h s = ground arith

-- Once a checkpoint has drained, whatever happens next leaves the state that it archives as it is:
-- nothing is queued or runs, and neither the turns nor the resume flag change. Only a failed archive
-- or an abort that names this checkpoint ends it.
pub run-Frozen :
    (events : List Event) (restore_mode has_run : Bool) (limit : ℕ) (event : Event)
    → let m = run events (fresh_machine restore_mode has_run limit) in
      Settled m → Frozen event m (step event m)
run-Frozen events restore_mode has_run limit event s =
    step-Frozen event _ (run-Inv events restore_mode has_run limit) s
