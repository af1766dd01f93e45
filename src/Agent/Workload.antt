-- ===== src/Agent/Workload.antt =====
-- data-plane/cmd/agent/claude.go, `claudeWorkload`: what its mutex guards. Each definition of the
-- child modules is one critical section; a section that waits has the condition as a definition.
pub mod Admission
pub mod Logins
pub mod Turns
pub mod Checkpoints
use session_platform.Prelude.{
  ℕ, Bool, false, not, ◌&&◌, Option, none, List, [], ◌∷◌, ◌++◌, Text, codes,
}
use session_platform.Agent.Bytes.{Bytes}
use session_platform.Agent.Scrollback.{Scrollback}

pub data ClaudeError : Type 0 where
  awaiting_restore : ClaudeError
  admission_closed : ClaudeError
  queue_full : ClaudeError
  output_full : ClaudeError
  already_ready : ClaudeError
  stopping : ClaudeError
  checkpoint_busy : ClaudeError
  bad_checkpoint_id : ClaudeError
  refresh_unsupported : ClaudeError
  refresh_running : ClaudeError
  refresh_busy : ClaudeError
  -- `ctx.Err()`
  context_done : ClaudeError
  -- Any other error, by its number.
  other : (code : ℕ) → ClaudeError

pub record PromptJob : Type 0 where
  pub prompt : Bytes
  pub seq : ℕ

-- The process stands for the pointer: no two sign-ins share one.
pub record PendingLogin : Type 0 where
  pub proc : ℕ
  pub prompt : Bytes
  pub after : ℕ

pub record DroppedLogin : Type 0 where
  pub after : ℕ
  pub until : ℕ

pub record Workload : Type 0 where
  pub queue : List PromptJob
  pub queued_bytes : ℕ
  pub ready : Bool
  pub accepting : Bool
  pub checkpointing : Bool
  pub checkpoint_ready : Bool
  pub checkpoint_id : Text
  pub last_aborted_checkpoint_id : Text
  pub restoring : Bool
  pub refreshing : Bool
  pub pending_login : Option PendingLogin
  pub dropped_login : Option DroppedLogin
  pub enqueued : ℕ
  pub active : Bool
  pub has_run : Bool
  pub turns : ℕ
  pub stopping : Bool
  pub out : Scrollback
  pub scrollback_limit : ℕ

abbrev pub max_claude_queued_prompts : ℕ
max_claude_queued_prompts = 64

abbrev pub max_claude_queued_bytes : ℕ
max_claude_queued_bytes = 8_388_608

abbrev pub claude_output_limit_marker : Bytes
claude_output_limit_marker =
    10
    ∷ (codes "[session-platform: session output limit reached; further prompts are disabled]"
        ++ 10 ∷ [])

-- What `newClaudeWorkload` starts with; only a pod that is no restore target is ready at once.
abbrev pub fresh_workload : (restore_mode has_run : Bool) (limit : ℕ) → Workload
fresh_workload restore_mode has_run limit = record {
  queue = [];
  queued_bytes = 0;
  ready = not restore_mode;
  accepting = not restore_mode;
  checkpointing = false;
  checkpoint_ready = false;
  checkpoint_id = [];
  last_aborted_checkpoint_id = [];
  restoring = false;
  refreshing = false;
  pending_login = none;
  dropped_login = none;
  enqueued = 0;
  active = false;
  has_run = not restore_mode && has_run;
  turns = 0;
  stopping = false;
  out = record { buf = []; changed = none; made = 0; closed = [] };
  scrollback_limit = limit;
}
