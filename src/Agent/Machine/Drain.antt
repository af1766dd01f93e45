-- ===== src/Agent/Machine/Drain.antt =====
-- The wait of a checkpoint of data-plane/cmd/agent/claude.go for the prompts that were accepted.
use session_platform.Prelude.{
  ℕ, ◌+◌, ◌*◌, ◌≤◌, ◌≡◌, ◌⊎◌, Bool, true, false, List, [], ◌∷◌, ◌++◌, length, if◌then◌else◌,
}
use session_platform.Agent.Machine.{
  draining, archiving, Machine, Event, turn_starts, turn_has_nothing_to_run, turn_ends, drain_ends,
  refresh_ends, closes, step,
}
use session_platform.Agent.Machine.Invariant.{Inv, Still}

-- The agent is not told to stop, and the checkpoint request's context does not end.
abbrev pub is_patient : Event → Bool
is_patient closes = false
is_patient (drain_ends expired) = if expired then false else true
is_patient _ = true

abbrev busy : Bool → ℕ
busy true = 1
busy false = 0

-- What must still happen before the archive: two events for each queued prompt, one for whatever runs.
abbrev pub work : Machine → ℕ
work m = 2 * length m.workload.queue + busy m.workload.active + busy m.workload.refreshing

-- The archive starts, when so many prompts were taken in all.
abbrev pub Drained : ℕ → Machine → Type 0
Drained turns m = (m.handler ≡ archiving) × Still m.workload × (m.workload.turns ≡ turns)

abbrev Waits : ℕ → Machine → Type 0
Waits turns m =
    (m.handler ≡ draining)
    × (m.workload.stopping ≡ false)
    × (m.workload.turns + length m.workload.queue ≡ turns)

-- How a turn ends: its invocation succeeded or not, or there was nothing to run.
pub data Ending : Type 0 where
  ran : (succeeded : Bool) → Ending
  nothing_to_run : Ending

abbrev pub end_of : Ending → Event
end_of (ran succeeded) = turn_ends succeeded
end_of nothing_to_run = turn_has_nothing_to_run

-- Each of the goroutines gets a step, after whatever else happens.
pub record Round : Type 0 where
  pub before : List Event
  pub ending : Ending
  pub now : ℕ

abbrev pub turn_of : Round → List Event
turn_of round = end_of round.ending ∷ refresh_ends ∷ turn_starts round.now ∷ drain_ends false ∷ []

abbrev pub schedule : List Round → List Event
schedule [] = []
schedule (round ∷ rounds) = round.before ++ (turn_of round ++ schedule rounds)

-- The archive starts at some moment of a run.
pub Archives : ℕ → List Event → Machine → Type 0
Archives turns [] m = Drained turns m
Archives turns (event ∷ events) m = Drained turns m ⊎ Archives turns events (step event m)

module _ (turns : ℕ) where
  -- Where a waiting checkpoint with so little work left is sure to archive along the events.
  abbrev Suffices : List Event → ℕ → Type 0
  Suffices events bound =
      (m : Machine) → Inv m → Waits turns m → work m ≤ bound → Archives turns events m
