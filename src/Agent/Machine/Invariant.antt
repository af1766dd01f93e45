-- ===== src/Agent/Machine/Invariant.antt =====
-- What every state that data-plane/cmd/agent/claude.go can reach satisfies.
use session_platform.Prelude.{
  ℕ, ◌+◌, ◌≤◌, ◌≡◌, Bool, true, false, List, [], ◌∷◌, ◌++◌, Text, arith, length, length-append,
  subst, sym, ◌⊎◌, inl, inr, ◌%◌, ◌^◌,
}
use session_platform.Agent.Bytes.{Bytes}
use session_platform.Agent.Workload.Admission.{
  accepted, enqueue, queue_is_full, close, begin_restore, finish_failed_restore, finish_restore,
  begin_refresh, end_refresh,
}
use session_platform.Agent.Workload.Logins.{
  hold_prompt, drop_pending_login, classify_input, classify_pending, classify_dropped,
}
use session_platform.Agent.Workload.Turns.{worker_waits, take_job, skip_turn, finish_turn}
use session_platform.Agent.Workload.Checkpoints.{
  close_admission, is_drained, finish_drain, abort_checkpoint, complete_checkpoint_stream,
  abort_completed_checkpoint, reopen_checkpoint,
}
use session_platform.Agent.Workload.{
  PromptJob, Workload, max_claude_queued_prompts, max_claude_queued_bytes,
}
use session_platform.Agent.Machine.{
  write, turn_starts, turn_has_nothing_to_run, turn_ends, sign_in_starts, sign_in_dropped, output,
  checkpoint_starts, drain_ends, archive_fails, archive_streams, abort_arrives, restore_starts,
  restore_fails, restore_ends, refresh_starts, refresh_ends, closes, turn_begins, checkpoint_begins,
  drain_returns, in_workload, no_handler, draining, archiving, Machine, Event, step, run,
  fresh_machine,
}

abbrev pub bytes_of : List PromptJob → ℕ
bytes_of [] = 0
bytes_of (job ∷ jobs) = length job.prompt + bytes_of jobs

-- The queue keeps both of its limits, and `queuedBytes` counts what is in it.
pub record Queued (c : Workload) : Type 0 where
  pub counted : c.queued_bytes ≡ bytes_of c.queue
  pub few : length c.queue ≤ max_claude_queued_prompts
  pub small : c.queued_bytes ≤ max_claude_queued_bytes

-- The flags agree with each other: before a restore nothing runs, is queued or is admitted, and a
-- checkpoint keeps admission closed.
pub record Agreed (c : Workload) : Type 0 where
  pub accepting_ready : c.accepting ≡ true → c.ready ≡ true
  pub accepting_open : c.accepting ≡ true → c.checkpointing ≡ false
  pub checkpointing_ready : c.checkpointing ≡ true → c.ready ≡ true
  pub streamed : c.checkpoint_ready ≡ true → c.checkpointing ≡ true
  pub named : c.checkpointing ≡ false → c.checkpoint_id ≡ []
  pub restoring_unready : c.restoring ≡ true → c.ready ≡ false
  pub unready_queue : c.ready ≡ false → c.queue ≡ []
  pub unready_idle : c.ready ≡ false → c.active ≡ false
  pub unready_still : c.ready ≡ false → c.refreshing ≡ false
  pub refreshing_idle : c.refreshing ≡ true → c.active ≡ false

abbrev pub Still : Workload → Type 0
Still c = (c.queue ≡ []) × (c.active ≡ false) × (c.refreshing ≡ false)

pub record Inv (m : Machine) : Type 0 where
  pub queued : Queued m.workload
  pub agreed : Agreed m.workload
  pub draining_checkpoint : m.handler ≡ draining → m.workload.checkpointing ≡ true
  pub archiving_checkpoint : m.handler ≡ archiving → m.workload.checkpointing ≡ true
  pub archiving_still : m.handler ≡ archiving → Still m.workload
  pub streamed_still : m.workload.checkpoint_ready ≡ true → Still m.workload
  pub streamed_handler : m.workload.checkpoint_ready ≡ true → m.handler ≡ no_handler
  pub unhandled :
      m.workload.checkpointing ≡ true → m.handler ≡ no_handler → m.workload.checkpoint_ready ≡ true

bytes_of-append :
    (jobs : List PromptJob) (job : PromptJob)
    → bytes_of (jobs ++ job ∷ []) ≡ bytes_of jobs + length job.prompt
bytes_of-append [] job = omega arith
bytes_of-append (first ∷ jobs) job = omega (arith, bytes_of-append jobs job)

accepted-Queued :
    (prompt : Bytes) (c : Workload)
    → Queued c
    → queue_is_full c prompt ≡ false
    → Queued (accepted c prompt)
unfolding queue_is_full
accepted-Queued prompt c h room =
    ground (arith, length-append c.queue (job ∷ []), bytes_of-append c.queue job)
  where
    job : PromptJob
    job = record { prompt = prompt; seq = (c.enqueued + 1) % 2 ^ 64 }

-- A write is either refused, which changes nothing, or it found a ready workload with open admission
-- and room in the queue.
enqueue-cases :
    (prompt : Bytes) (c : Workload)
    → ((enqueue prompt c).1 ≡ c)
      ⊎ (((enqueue prompt c).1 ≡ accepted c prompt)
          × (c.ready ≡ true)
          × (c.accepting ≡ true)
          × (queue_is_full c prompt ≡ false))
unfolding enqueue
enqueue-cases prompt c = ground arith

accepted-Inv :
    (prompt : Bytes) (m : Machine)
    → Inv m
    → m.workload.ready ≡ true
    → m.workload.accepting ≡ true
    → queue_is_full m.workload prompt ≡ false
    → Inv (in_workload m (accepted m.workload prompt))
accepted-Inv prompt m h ready admitted room =
    let queued = accepted-Queued prompt m.workload h.queued room in ground arith

write-Inv : (prompt : Bytes) (m : Machine) → Inv m → Inv (step (Event.write prompt) m)
unfolding step
write-Inv prompt m h =
    elim (enqueue-cases prompt m.workload)
      as (λ _. Inv (in_workload m (enqueue prompt m.workload).1)) [
        | inl e ↦ subst (λ c. Inv (in_workload m c)) (sym e) h
        | inr (e, ready, admitted, room) ↦
            subst (λ c. Inv (in_workload m c)) (sym e) (accepted-Inv prompt m h ready admitted room)
      ]

closes-Inv : (m : Machine) → Inv m → Inv (step Event.closes m)
unfolding step close
closes-Inv m h = ground arith

refresh_starts-Inv :
    (supported : Bool) (m : Machine) → Inv m → Inv (step (Event.refresh_starts supported) m)
unfolding step begin_refresh
refresh_starts-Inv supported m h = ground arith

abort_arrives-Inv : (id : Text) (m : Machine) → Inv m → Inv (step (Event.abort_arrives id) m)
unfolding step abort_completed_checkpoint reopen_checkpoint
abort_arrives-Inv id m h = ground arith

turn_starts-Inv : (now : ℕ) (m : Machine) → Inv m → Inv (step (Event.turn_starts now) m)
unfolding step turn_begins take_job worker_waits classify_input classify_pending classify_dropped
turn_starts-Inv now m h = ground arith

checkpoint_starts-Inv :
    (id : Text) (m : Machine) → Inv m → Inv (step (Event.checkpoint_starts id) m)
unfolding step checkpoint_begins close_admission
checkpoint_starts-Inv id m h = ground arith

drain_ends-Inv : (expired : Bool) (m : Machine) → Inv m → Inv (step (Event.drain_ends expired) m)
unfolding step drain_returns finish_drain is_drained reopen_checkpoint
drain_ends-Inv expired m h = ground arith

pub step-Inv : (event : Event) (m : Machine) → Inv m → Inv (step event m)
unfolding step skip_turn finish_turn hold_prompt drop_pending_login abort_checkpoint
    reopen_checkpoint complete_checkpoint_stream begin_restore finish_failed_restore finish_restore
    end_refresh
step-Inv (write prompt) m h = write-Inv prompt m h
step-Inv (turn_starts now) m h = turn_starts-Inv now m h
step-Inv turn_has_nothing_to_run m h = ground arith
step-Inv (turn_ends succeeded) m h = ground arith
step-Inv (sign_in_starts proc prompt) m h = ground arith
step-Inv (sign_in_dropped now pending) m h = ground arith
step-Inv (output bytes) m h = ground arith
step-Inv (checkpoint_starts id) m h = checkpoint_starts-Inv id m h
step-Inv (drain_ends expired) m h = drain_ends-Inv expired m h
step-Inv archive_fails m h = ground arith
step-Inv archive_streams m h = ground arith
step-Inv (abort_arrives id) m h = abort_arrives-Inv id m h
step-Inv restore_starts m h = ground arith
step-Inv restore_fails m h = ground arith
step-Inv (restore_ends bytes turns has_run) m h = ground arith
step-Inv (refresh_starts supported) m h = refresh_starts-Inv supported m h
step-Inv refresh_ends m h = ground arith
step-Inv closes m h = closes-Inv m h

run_from-Inv : (events : List Event) (m : Machine) → Inv m → Inv (run events m)
unfolding run
run_from-Inv [] m h = h
run_from-Inv (event ∷ events) m h = run_from-Inv events (step event m) (step-Inv event m h)

-- Whatever the goroutines of an agent do, in any order and from either kind of start, the queue keeps
-- its limits, the flags agree, and a checkpoint that is past its drain has nothing queued or running.
pub run-Inv :
    (events : List Event) (restore_mode has_run : Bool) (limit : ℕ)
    → Inv (run events (fresh_machine restore_mode has_run limit))
run-Inv events restore_mode has_run limit = run_from-Inv events _ (ground arith)
