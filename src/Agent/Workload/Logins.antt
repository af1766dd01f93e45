-- ===== src/Agent/Workload/Logins.antt =====
-- data-plane/cmd/agent/claude_subscription.go: a sign-in between its two writes.
use session_platform.Prelude.{
  ℕ, Bool, true, false, Option, none, some, ltb, leb, ◌+◌, ◌*◌, ◌==◌, if◌then◌else◌,
}
use session_platform.Kubernetes.{second}
use session_platform.Agent.Bytes.{Bytes}
use session_platform.Agent.Workload.{PromptJob, PendingLogin, DroppedLogin, Workload}

-- `turnInput`, whose fields exclude each other.
pub data TurnInput : Type 0 where
  prompt_input : TurnInput
  code_input : PendingLogin → TurnInput
  stale_code : TurnInput
  before_sign_in : TurnInput

unfoldable pub classify_pending : PendingLogin → PromptJob → Workload → TurnInput × Workload
classify_pending pending job c =
    if leb job.seq pending.after
    then (before_sign_in, c)
    else (code_input pending, record c { pending_login = none })

unfoldable pub classify_dropped : ℕ → DroppedLogin → PromptJob → Workload → TurnInput × Workload
classify_dropped now dropped job c =
    if ltb dropped.until now
    then (prompt_input, record c { dropped_login = none })
    else if ltb dropped.after job.seq
    then (stale_code, record c { dropped_login = none })
    else (prompt_input, c)

unfoldable pub classify_input : ℕ → PromptJob → Workload → TurnInput × Workload
classify_input now job c = elim c.pending_login [
  | some pending ↦ classify_pending pending job c
  | none ↦ elim c.dropped_login [
    | some dropped ↦ classify_dropped now dropped job c
    | none ↦ (prompt_input, c)
  ]
]

-- The section of `subscriptionGate` that holds the prompt.
unfoldable pub hold_prompt : (proc : ℕ) → Bytes → Workload → Workload
hold_prompt proc prompt c = record c {
  pending_login = some (record { proc = proc; prompt = prompt; after = c.enqueued });
  dropped_login = none;
}

abbrev pub claude_login_dropped_window : ℕ
claude_login_dropped_window = 1_800 * second

unfoldable pub is_pending : ℕ → Option PendingLogin → Bool
is_pending proc none = false
is_pending proc (some pending) = pending.proc == proc

-- It reports whether the sign-in is the one that was dropped, and its process to be killed.
unfoldable pub drop_pending_login : ℕ → PendingLogin → Workload → Bool × Workload
drop_pending_login now pending c =
    if is_pending pending.proc c.pending_login
    then (
      true,
      record c {
        pending_login = none;
        dropped_login =
            if c.stopping
            then c.dropped_login
            else some (record { after = pending.after; until = now + claude_login_dropped_window });
      },
    )
    else (false, c)
