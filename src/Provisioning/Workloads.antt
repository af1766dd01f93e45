-- ===== src/Provisioning/Workloads.antt =====
-- control-plane/internal/adapter/k8s/{client_orchestrator,minimax_code,codex,shell_security}.go: the pod
-- that runs a session's workload.
use session_platform.Prelude.{
  not, Option, none, some, List, [], ◌∷◌, ◌++◌, Text, codes, text_eq, is_empty, if◌then◌else◌,
}
use session_platform.Session.Types.{WorkloadType}
use session_platform.Session.Models.{platform_default_model}
use session_platform.Pods.{WorkloadSpec}
use session_platform.Provisioning.{
  EnvVar, VolumeMount, Volume, SecurityContext, image_default, shell_user, Container,
  ClaudeCodeAuthMode, gateway_auth, subscription_auth, ClientOrchestrator, HelperEndpoints,
}
use session_platform.Provisioning.Names.{shared_claim_name, k3s_mcp_proxy_port, url_of}
use session_platform.Provisioning.Parts.{
  plain_env, secret_env, optional_config_map_env, given, mount, scratch, workload_state_dir,
  shared_volume_enabled, shared_volume, shared_volume_mount, shared_env, credential_proxy_container,
  comma_joined, codex_profile_for, codex_k3s_mcp_proxy,
}

-- What a type adds to its container and to its pod.
pub record WorkloadParts : Type 0 where
  pub env : List EnvVar
  pub volume_mounts : List VolumeMount
  pub security_context : SecurityContext
  pub sidecars : List Container
  pub volumes : List Volume

abbrev placeholder_token : EnvVar
placeholder_token = plain_env (codes "ANTHROPIC_AUTH_TOKEN") (codes "session-platform-proxy")

abbrev claude_state_dir : EnvVar
claude_state_dir = plain_env (codes "CLAUDE_CODE_STATE_DIR") workload_state_dir

abbrev claude_state : Text
claude_state = codes "claude-state"

-- The platform's own choice is read from the ConfigMap when the pod starts.
unfoldable pub model_env : (name model config_map key : Text) → EnvVar
model_env name model config_map key =
    if text_eq model platform_default_model
    then optional_config_map_env name config_map key
    else plain_env name model

abbrev pub plugins_env : Option (List Text) → List EnvVar
plugins_env none = []
plugins_env (some plugins) = plain_env (codes "CLAUDE_CODE_PLUGINS") (comma_joined plugins) ∷ []

abbrev pub effort_env : Text → Text → List EnvVar
effort_env name effort = given (not (is_empty effort)) (plain_env name effort ∷ [])

unfoldable pub shell_parts : ClientOrchestrator → WorkloadParts
shell_parts o = record {
  env =
      given (not (is_empty o.shell)) (plain_env (codes "DATA_PLANE_SHELL") o.shell ∷ [])
      ++ plain_env (codes "SHELL_STATE_DIR") workload_state_dir ∷ [];
  volume_mounts = mount (codes "shell-state") (codes "/session") ∷ [];
  security_context = shell_user;
  sidecars = [];
  volumes = scratch (codes "shell-state") ∷ [];
}

abbrev model_key : ClaudeCodeAuthMode → Text
model_key gateway_auth = codes "model"
model_key subscription_auth = codes "subscription-model"

abbrev pub auth_env : ClaudeCodeAuthMode → List EnvVar
auth_env gateway_auth =
    plain_env (codes "ANTHROPIC_BASE_URL") (codes "http://127.0.0.1:8091") ∷ placeholder_token ∷ []
auth_env subscription_auth = plain_env (codes "CLAUDE_CODE_AUTH_MODE") (codes "subscription") ∷ []

abbrev pub claude_sidecars : ClientOrchestrator → Text → ClaudeCodeAuthMode → List Container
claude_sidecars o image gateway_auth =
    credential_proxy_container o (codes "claude-credentials") image (codes "127.0.0.1:8091")
      (codes "sidecar")
    ∷ []
claude_sidecars o image subscription_auth = []

unfoldable pub claude_code_parts : ClientOrchestrator → WorkloadSpec → Text → WorkloadParts
claude_code_parts o spec image = record {
  env =
      model_env (codes "CLAUDE_CODE_MODEL") spec.model o.claude_config_config_map
        (model_key o.claude_auth_mode)
      ∷ secret_env (codes "K3S_MCP_TOKEN") o.claude_credentials_secret (codes "k3s-mcp-token")
      ∷ optional_config_map_env (codes "K3S_MCP_URL") o.claude_config_config_map
          (codes "k3s-mcp-url")
      ∷ optional_config_map_env (codes "CLAUDE_CODE_PLUGIN_MARKETPLACE_URL")
          o.claude_config_config_map (codes "plugin-marketplace-url")
      ∷ claude_state_dir
      ∷ (plugins_env spec.plugins
          ++ effort_env (codes "CLAUDE_CODE_EFFORT") spec.reasoning_effort
          ++ auth_env o.claude_auth_mode);
  volume_mounts = mount claude_state (codes "/session") ∷ [];
  security_context = image_default;
  sidecars = claude_sidecars o image o.claude_auth_mode;
  volumes = scratch claude_state ∷ [];
}

-- No credential of the outside is in this container, and no proxy beside it.
unfoldable pub approval_gated_parts :
    ClientOrchestrator → WorkloadSpec → HelperEndpoints → Text → WorkloadParts
approval_gated_parts o spec helper helper_pod = record {
  env =
      model_env (codes "CLAUDE_CODE_MODEL") spec.model o.claude_config_config_map (codes "model")
      ∷ claude_state_dir
      ∷ plain_env (codes "ANTHROPIC_BASE_URL") helper.proxy_url
      ∷ placeholder_token
      ∷ plain_env (codes "SESSION_MCP_URL") helper.mcp_url
      ∷ given (shared_volume_enabled o) (shared_env ∷ []);
  volume_mounts =
      mount claude_state (codes "/session")
      ∷ given (shared_volume_enabled o) (shared_volume_mount ∷ []);
  security_context = image_default;
  sidecars = [];
  volumes =
      scratch claude_state
      ∷ given (shared_volume_enabled o) (shared_volume (shared_claim_name helper_pod) ∷ []);
}

unfoldable pub mini_max_code_pod :
    ClientOrchestrator → WorkloadSpec → HelperEndpoints → Text → WorkloadParts
mini_max_code_pod o spec helper helper_pod = record {
  env =
      model_env (codes "MINIMAX_CODE_MODEL") spec.model o.mini_max_config_config_map (codes "model")
      ∷ claude_state_dir
      ∷ plain_env (codes "ANTHROPIC_BASE_URL") helper.proxy_url
      ∷ placeholder_token
      ∷ plain_env (codes "SESSION_MCP_URL") helper.mcp_url
      ∷ plain_env (codes "K3S_MCP_PROXY_URL") helper.k3s_mcp_url
      ∷ given (shared_volume_enabled o) (shared_env ∷ []);
  volume_mounts =
      mount claude_state (codes "/session")
      ∷ given (shared_volume_enabled o) (shared_volume_mount ∷ []);
  security_context = image_default;
  sidecars = [];
  volumes =
      scratch claude_state
      ∷ given (shared_volume_enabled o) (shared_volume (shared_claim_name helper_pod) ∷ []);
}

unfoldable pub codex_pod :
    ClientOrchestrator → Text → WorkloadSpec → WorkloadType → Text → WorkloadParts
codex_pod o session_id spec workload image =
    let profile = codex_profile_for o workload in
    record {
      env =
          model_env (codes "CODEX_MODEL") spec.model profile.config_config_map (codes "model")
          ∷ claude_state_dir
          ∷ plain_env (codes "K3S_MCP_PROXY_URL") (url_of (codes "127.0.0.1") k3s_mcp_proxy_port)
          ∷ effort_env (codes "CODEX_REASONING_EFFORT") spec.reasoning_effort;
      volume_mounts = mount claude_state (codes "/session") ∷ [];
      security_context = image_default;
      sidecars = codex_k3s_mcp_proxy o session_id image profile spec.plugins ∷ [];
      volumes = scratch claude_state ∷ scratch (codes "marketplace") ∷ [];
    }

abbrev pub no_parts : WorkloadParts
no_parts = record {
  env = [];
  volume_mounts = [];
  security_context = image_default;
  sidecars = [];
  volumes = [];
}
