-- ===== src/Agent/Workload/Turns.antt =====
-- data-plane/cmd/agent/claude.go, `runWorker`: what it does before and after an invocation.
use session_platform.Prelude.{
  ℕ, suc, ◌-◌, Bool, true, false, not, ◌&&◌, ◌||◌, Option, none, some, List, [], ◌∷◌, length,
}
use session_platform.Agent.Workload.{PromptJob, Workload}
use session_platform.Agent.Workload.Logins.{TurnInput, classify_input}

-- The condition under which the worker waits.
unfoldable pub worker_waits : Workload → Bool
worker_waits c = not c.stopping && (not c.ready || (c.refreshing || is_empty_queue c.queue))
  where
    is_empty_queue : List PromptJob → Bool
    is_empty_queue [] = true
    is_empty_queue (job ∷ jobs) = false

pub record Turn : Type 0 where
  pub job : PromptJob
  pub resume : Bool
  pub seq : ℕ
  pub input : TurnInput

-- `queue.Front()` is only taken from a queue that is not empty.
unfoldable pub take_job : ℕ → Workload → Option (Turn × Workload)
take_job now c = elim c.queue [
  | [] ↦ none
  | job ∷ jobs ↦
      let taken = record c {
        queue = jobs;
        queued_bytes = c.queued_bytes - length job.prompt;
        active = true;
        turns = suc c.turns;
      } in
      let (input, c') = classify_input now job taken in
      some (record { job = job; resume = c.has_run; seq = suc c.turns; input = input }, c')
]

-- A turn that had nothing to run.
unfoldable pub skip_turn : Workload → Workload
skip_turn c = record c { active = false }

-- `succeeded` is `err == nil || errors.Is(err, exec.ErrWaitDelay)`.
unfoldable pub finish_turn : (resume succeeded : Bool) → Workload → Workload
finish_turn resume succeeded c = record c { has_run = resume || succeeded; active = false }
