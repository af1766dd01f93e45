-- ===== src/Session/Catalog.antt =====
-- control-plane/internal/session/workload_catalog.go, and the reasoning effort that it decides.
use session_platform.Prelude.{
  Bool, true, false, ◌&&◌, List, [], ◌∷◌, Text, codes, text_eq, is_empty, any, ◌++◌, if◌then◌else◌,
  Result, ok, err, map,
}
use session_platform.Session.Errors.{Error, sentinel, invalid_input}
use session_platform.Session.Types.{
  WorkloadType, workload_eq, shell, claude_code, approval_gated, minimax_code, codex_chat,
  codex_task,
}

pub data InputMode : Type 0 where
  terminal prompt : InputMode

pub record WorkloadTypeInfo : Type 0 where
  pub type : WorkloadType
  pub label : Text
  pub description : Text
  pub takes_model : Bool
  pub takes_plugins : Bool
  pub input : InputMode
  pub reasoning_efforts : List Text

unfoldable pub workload_type_catalog : List WorkloadTypeInfo
workload_type_catalog =
    record {
      type = shell;
      label = codes "Shell";
      description = codes "Interactive bash. You type the commands.";
      takes_model = false;
      takes_plugins = false;
      input = terminal;
      reasoning_efforts = [];
    }
    ∷ record {
      type = claude_code;
      label = codes "Claude Code";
      description = codes "Agent CLI. You send prompts, it does the work.";
      takes_model = true;
      takes_plugins = true;
      input = prompt;
      reasoning_efforts =
          codes "low" ∷ codes "medium" ∷ codes "high" ∷ codes "xhigh" ∷ codes "max" ∷ [];
    }
    ∷ record {
      type = minimax_code;
      label = codes "MiniMax Code";
      description =
          codes "MiniMax Code CLI behind the approval gate. K3s MCP tools use their own gate.";
      takes_model = true;
      takes_plugins = true;
      input = prompt;
      reasoning_efforts = [];
    }
    ∷ record {
      type = codex_chat;
      label = codes "Codex Chat";
      description =
          codes
            "Codex SDK agent on your ChatGPT plan. Conversation, plugin skills and K3s MCP only.";
      takes_model = true;
      takes_plugins = true;
      input = prompt;
      reasoning_efforts = [];
    }
    ∷ record {
      type = codex_task;
      label = codes "Codex Task";
      description =
          codes
            "Codex coding agent on a pooled ChatGPT login. Shell, files and network, like Claude Code.";
      takes_model = true;
      takes_plugins = true;
      input = prompt;
      reasoning_efforts =
          codes "minimal" ∷ codes "low" ∷ codes "medium" ∷ codes "high" ∷ codes "xhigh" ∷ [];
    }
    ∷ record {
      type = approval_gated;
      label = codes "Approval-gated";
      description = codes "Same agent, but every outbound call waits for your approval.";
      takes_model = true;
      takes_plugins = false;
      input = prompt;
      reasoning_efforts = [];
    }
    ∷ []

-- `WorkloadTypes`: each entry is copied, its efforts too.
copy_info : WorkloadTypeInfo → WorkloadTypeInfo
copy_info info = record info { reasoning_efforts = [] ++ info.reasoning_efforts }

unfoldable pub workload_types : List WorkloadTypeInfo
unfolding copy_info workload_type_catalog
workload_types = [] ++ map copy_info workload_type_catalog

abbrev pub offers_effort : WorkloadType → Text → List WorkloadTypeInfo → Bool
offers_effort workload effort =
    any (λ info. workload_eq info.type workload && any (text_eq effort) info.reasoning_efforts)

unfoldable pub normalize_reasoning_effort : WorkloadType → Text → Result Error Text
normalize_reasoning_effort workload effort =
    if is_empty effort
    then ok []
    else if offers_effort workload effort workload_type_catalog
    then ok effort
    else err (sentinel invalid_input)
