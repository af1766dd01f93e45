-- ===== src/Provisioning/Options.antt =====
-- control-plane/internal/adapter/k8s/{client_orchestrator,codex,minimax_code,repo_access,drop,shared_volume,
-- auth_pool}.go: the constructor of the orchestrator and its options. The intervals of WithReadiness are the
-- number of ticks that a start is given.
use mathlib.Core.List.{reverse}
use session_platform.Prelude.{
  ℕ, zero, suc, Option, none, some, List, [], ◌∷◌, Text, codes, is_empty, ◌==◌, if◌then◌else◌,
}
use session_platform.Session.Types.{WorkloadType, workload_eq}
use session_platform.Session.Models.{trim_space}
use session_platform.Provisioning.{ClaudeCodeAuthMode, gateway_auth, ClientOrchestrator}

-- One constructor for each function `With…`; a size of none is the zero quantity.
pub data ClientOption : Type 0 where
  with_image : Text → ClientOption
  with_workload_image : WorkloadType → Text → ClientOption
  with_claude_credentials_secret : Text → ClientOption
  with_claude_config_config_map : Text → ClientOption
  with_approval_gateway_url : Text → ClientOption
  with_shell : Text → ClientOption
  with_agent_port : ℕ → ClientOption
  with_codex_credentials_secret : Text → ClientOption
  with_codex_config_config_map : Text → ClientOption
  with_codex_plugins : Text → ClientOption
  with_codex_task_credentials_secret : Text → ClientOption
  with_codex_task_config_config_map : Text → ClientOption
  with_codex_task_plugins : Text → ClientOption
  with_mini_max_credentials_secret : Text → ClientOption
  with_mini_max_config_config_map : Text → ClientOption
  with_repo_access : Text → ClientOption
  with_drop_url : Text → ClientOption
  with_shared_volume : Text → Option Text → ClientOption
  with_claude_code_auth_mode : ClaudeCodeAuthMode → ClientOption

-- `if name != "" { … = name }`.
unfoldable pub or_kept : Text → Text → Text
or_kept name kept = if is_empty name then kept else name

abbrev drop_slashes : Text → Text
drop_slashes [] = []
drop_slashes (c ∷ s) = let rest = drop_slashes s in if c == b'/' then rest else c ∷ s

-- `strings.TrimRight(strings.TrimSpace(url), "/")`.
unfoldable pub base_url : Text → Text
base_url url = reverse (drop_slashes (reverse (trim_space url)))

abbrev pub assigned :
    (WorkloadType → Option Text) → WorkloadType → Text → WorkloadType → Option Text
assigned images workload image asked =
    if is_empty image
    then images asked
    else if workload_eq workload asked
    then some image
    else images asked

abbrev or_default : Option Text → Text → Text
or_default none kept = kept
or_default (some size) kept = size

abbrev pub positive : ℕ → ℕ → ℕ
positive zero kept = kept
positive (suc n) kept = suc n

unfoldable pub applied : ClientOption → ClientOrchestrator → ClientOrchestrator
applied (with_image image) o = record o { image = or_kept image o.image }
applied (with_workload_image workload image) o = record o {
  workload_images = assigned o.workload_images workload image;
}
applied (with_claude_credentials_secret name) o = record o {
  claude_credentials_secret = or_kept (trim_space name) o.claude_credentials_secret;
}
applied (with_claude_config_config_map name) o = record o {
  claude_config_config_map = or_kept (trim_space name) o.claude_config_config_map;
}
applied (with_approval_gateway_url url) o = record o { approval_gateway_url = trim_space url }
applied (with_shell shell) o = record o { shell = or_kept shell o.shell }
applied (with_agent_port port) o = record o { agent_port = positive port o.agent_port }
applied (with_codex_credentials_secret name) o = record o {
  codex_chat_profile = record o.codex_chat_profile {
    credentials_secret = or_kept (trim_space name) o.codex_chat_profile.credentials_secret;
  };
}
applied (with_codex_config_config_map name) o = record o {
  codex_chat_profile = record o.codex_chat_profile {
    config_config_map = or_kept (trim_space name) o.codex_chat_profile.config_config_map;
  };
}
applied (with_codex_plugins plugins) o = record o {
  codex_chat_profile = record o.codex_chat_profile {
    plugins = or_kept (trim_space plugins) o.codex_chat_profile.plugins;
  };
}
applied (with_codex_task_credentials_secret name) o = record o {
  codex_task = record o.codex_task {
    credentials_secret = or_kept (trim_space name) o.codex_task.credentials_secret;
  };
}
applied (with_codex_task_config_config_map name) o = record o {
  codex_task = record o.codex_task {
    config_config_map = or_kept (trim_space name) o.codex_task.config_config_map;
  };
}
applied (with_codex_task_plugins plugins) o = record o {
  codex_task = record o.codex_task { plugins = or_kept (trim_space plugins) o.codex_task.plugins };
}
applied (with_mini_max_credentials_secret name) o = record o {
  mini_max_credentials_secret = or_kept (trim_space name) o.mini_max_credentials_secret;
}
applied (with_mini_max_config_config_map name) o = record o {
  mini_max_config_config_map = or_kept (trim_space name) o.mini_max_config_config_map;
}
applied (with_repo_access url) o = record o { repo_access_url = base_url url }
applied (with_drop_url url) o = record o { drop_url = base_url url }
applied (with_shared_volume storage_class size) o = record o {
  shared_volume_storage_class = storage_class;
  shared_volume_size = or_default size o.shared_volume_size;
}
applied (with_claude_code_auth_mode mode) o = record o { claude_auth_mode = mode }

unfoldable pub default_orchestrator : Text → ClientOrchestrator
default_orchestrator namespace = record {
  namespace = namespace;
  image = codes "alpine:3.20";
  claude_credentials_secret = codes "claude-code-credentials";
  claude_config_config_map = codes "claude-code-config";
  approval_gateway_url = [];
  repo_access_url = [];
  drop_url = [];
  mini_max_credentials_secret = codes "minimax-code-credentials";
  mini_max_config_config_map = codes "minimax-code-config";
  codex_chat_profile = record {
    credentials_secret = codes "codex-credentials";
    config_config_map = codes "codex-config";
    plugins = codes "codex-session";
  };
  codex_task = record {
    credentials_secret = codes "codex-task-credentials";
    config_config_map = codes "codex-task-config";
    plugins = codes "codex-session";
  };
  claude_auth_mode = gateway_auth;
  shared_volume_storage_class = [];
  shared_volume_size = codes "1Gi";
  workload_images = λ workload. none;
  shell = [];
  agent_port = 8090;
}

unfoldable pub with_options : List ClientOption → ClientOrchestrator → ClientOrchestrator
with_options [] o = o
with_options (opt ∷ opts) o = with_options opts (applied opt o)

unfoldable pub new_client_orchestrator : Text → List ClientOption → ClientOrchestrator
new_client_orchestrator namespace opts = with_options opts (default_orchestrator namespace)
