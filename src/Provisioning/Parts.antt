-- ===== src/Provisioning/Parts.antt =====
-- control-plane/internal/adapter/k8s/{client_orchestrator,shared_volume,minimax_code,codex,auth_pool}.go:
-- the parts that the pods are put together from.
use session_platform.Prelude.{
  ℕ, Bool, true, false, not, Option, none, some, List, [], ◌∷◌, ◌++◌, map, Text, codes, text_eq,
  is_empty, if◌then◌else◌, Result, ok, err,
}
use session_platform.Session.Errors.{Error, failed}
use session_platform.Session.Types.{WorkloadType, claude_code, codex_task}
use session_platform.Slots.Leases.{itoa, auth_slot_claim_name}
use session_platform.Provisioning.{
  plain, from_secret, from_config, EnvVar, VolumeMount, empty_dir, claim, Volume, hardened,
  exec_connect, Container, CodexProfile, ClaudeCodeAuthMode, subscription_auth, ClientOrchestrator,
}
use session_platform.Provisioning.Names.{
  pull_policy_for_image, k3s_mcp_proxy_port, credential_proxy_port,
}

abbrev pub plain_env : Text → Text → EnvVar
plain_env name value = record { name = name; source = plain value }

unfoldable pub secret_env : Text → Text → Text → EnvVar
secret_env name secret key = record { name = name; source = from_secret secret key false }

unfoldable pub optional_secret_env : Text → Text → Text → EnvVar
optional_secret_env name secret key = record { name = name; source = from_secret secret key true }

unfoldable pub config_map_env : Text → Text → Text → EnvVar
config_map_env name config_map key = record {
  name = name;
  source = from_config config_map key false;
}

unfoldable pub optional_config_map_env : Text → Text → Text → EnvVar
optional_config_map_env name config_map key = record {
  name = name;
  source = from_config config_map key true;
}

-- `append` under an `if`.
abbrev pub given {ℓ} : {A : Type ℓ} → Bool → List A → List A
given b xs = if b then xs else []

abbrev pub mount : Text → Text → VolumeMount
mount name path = record { name = name; mount_path = path; read_only = false }

abbrev pub read_only_mount : Text → Text → VolumeMount
read_only_mount name path = record { name = name; mount_path = path; read_only = true }

abbrev pub scratch : Text → Volume
scratch name = record { name = name; source = empty_dir }

abbrev pub workload_state_dir : Text
workload_state_dir = codes "/session/state"

unfoldable pub shared_volume_enabled : ClientOrchestrator → Bool
shared_volume_enabled o = not (is_empty o.shared_volume_storage_class)

unfoldable pub shared_volume : Text → Volume
shared_volume claim_name = record { name = codes "session-shared"; source = claim claim_name }

abbrev pub shared_volume_mount : VolumeMount
shared_volume_mount = mount (codes "session-shared") (codes "/shared")

abbrev pub shared_env : EnvVar
shared_env = plain_env (codes "SESSION_SHARED_DIR") (codes "/shared")

unfoldable pub credential_proxy_container :
    ClientOrchestrator → Text → Text → Text → Text → Container
credential_proxy_container o name image listen_addr placement = record {
  name = name;
  image = image;
  pull_policy = pull_policy_for_image image;
  ports = [];
  env =
      plain_env (codes "DATA_PLANE_WORKLOAD") (codes "credential-proxy")
      ∷ plain_env (codes "DATA_PLANE_AGENT_ADDR") listen_addr
      ∷ plain_env (codes "DATA_PLANE_PROXY_PLACEMENT") placement
      ∷ config_map_env (codes "ANTHROPIC_BASE_URL") o.claude_config_config_map (codes "base-url")
      ∷ secret_env (codes "ANTHROPIC_AUTH_TOKEN") o.claude_credentials_secret (codes "auth-token")
      ∷ optional_config_map_env (codes "ANTHROPIC_CA_CERT") o.claude_config_config_map
          (codes "ca-cert")
      ∷ [];
  volume_mounts = [];
  readiness_probe = exec_connect credential_proxy_port;
  security_context = hardened;
}

abbrev pub comma_joined : List Text → Text
comma_joined [] = []
comma_joined (name ∷ []) = name
comma_joined (name ∷ next ∷ names) = name ++ codes "," ++ comma_joined (next ∷ names)

abbrev pub marketplace_env : Option (List Text) → List EnvVar
marketplace_env plugins =
    plain_env (codes "MINIMAX_CODE_MARKETPLACE_DIR") (codes "/var/lib/session-platform-marketplace")
    ∷ elim plugins [
      | none ↦ []
      | some names ↦ plain_env (codes "MINIMAX_CODE_PLUGINS") (comma_joined names) ∷ []
    ]

abbrev pub marketplace_mount : VolumeMount
marketplace_mount = mount (codes "marketplace") (codes "/var/lib/session-platform-marketplace")

unfoldable pub k3s_mcp_proxy :
    ClientOrchestrator → Text → Text → Text → (marketplace : Bool) → Option (List Text) → Container
k3s_mcp_proxy o session_id image secret marketplace plugins =
    let port = codes ":" ++ itoa k3s_mcp_proxy_port in
    record (credential_proxy_container o (codes "k3s-mcp-proxy") image port (codes "helper")) {
      env =
          plain_env (codes "DATA_PLANE_WORKLOAD") (codes "k3s-mcp-proxy")
          ∷ plain_env (codes "DATA_PLANE_AGENT_ADDR") port
          ∷ plain_env (codes "DATA_PLANE_PROXY_PLACEMENT") (codes "helper")
          ∷ plain_env (codes "SESSION_ID") session_id
          ∷ (given marketplace (marketplace_env plugins)
              ++ optional_secret_env (codes "K3S_MCP_TOKEN") secret (codes "k3s-mcp-token") ∷ []);
      volume_mounts = given marketplace (marketplace_mount ∷ []);
      readiness_probe = exec_connect k3s_mcp_proxy_port;
    }

unfoldable pub codex_profile_for : ClientOrchestrator → WorkloadType → CodexProfile
codex_profile_for o codex_task = o.codex_task
codex_profile_for o _ = o.codex_chat_profile

abbrev selected_plugins : CodexProfile → Option (List Text) → Text
selected_plugins profile none = profile.plugins
selected_plugins profile (some names) = comma_joined names

unfoldable pub codex_k3s_mcp_proxy :
    ClientOrchestrator → Text → Text → CodexProfile → Option (List Text) → Container
codex_k3s_mcp_proxy o session_id image profile plugins =
    let port = codes "127.0.0.1:" ++ itoa k3s_mcp_proxy_port in
    record (credential_proxy_container o (codes "k3s-mcp-proxy") image port (codes "sidecar")) {
      env =
          plain_env (codes "DATA_PLANE_WORKLOAD") (codes "k3s-mcp-proxy")
          ∷ plain_env (codes "DATA_PLANE_AGENT_ADDR") port
          ∷ plain_env (codes "DATA_PLANE_PROXY_PLACEMENT") (codes "sidecar")
          ∷ plain_env (codes "SESSION_ID") session_id
          ∷ plain_env (codes "MINIMAX_CODE_MARKETPLACE_DIR")
              (codes "/var/lib/session-platform-marketplace")
          ∷ plain_env (codes "MINIMAX_CODE_PLUGINS") (selected_plugins profile plugins)
          ∷ plain_env (codes "K3S_MCP_TOOL_POLICY") (codes "allow-all")
          ∷ optional_secret_env (codes "K3S_MCP_TOKEN") profile.credentials_secret
              (codes "k3s-mcp-token")
          ∷ optional_config_map_env (codes "K3S_MCP_URL") profile.config_config_map
              (codes "k3s-mcp-url")
          ∷ optional_config_map_env (codes "MINIMAX_CODE_PLUGIN_MARKETPLACE_URL")
              profile.config_config_map (codes "plugin-marketplace-url")
          ∷ [];
      volume_mounts = marketplace_mount ∷ [];
      readiness_probe = exec_connect k3s_mcp_proxy_port;
    }

-- Every reference to the claude-code pair becomes one to the pair of minimax-code.
abbrev repointed : ClientOrchestrator → EnvVar → EnvVar
repointed o e = record e {
  source = elim e.source [
    | plain value ↦ plain value
    | from_secret secret key optional ↦
        from_secret
          (if text_eq secret o.claude_credentials_secret
            then o.mini_max_credentials_secret
            else secret)
          key optional
    | from_config config_map key optional ↦
        from_config
          (if text_eq config_map o.claude_config_config_map
            then o.mini_max_config_config_map
            else config_map)
          key optional
  ];
}

unfoldable pub repoint_to_mini_max : ClientOrchestrator → Container → Container
repoint_to_mini_max o proxy = record proxy { env = map (repointed o) proxy.env }

unfoldable pub auth_pool_for : WorkloadType → ClaudeCodeAuthMode → Option Text
auth_pool_for codex_task mode = some (codes "codex-task")
auth_pool_for claude_code subscription_auth = some (codes "claude-code")
auth_pool_for _ _ = none

pub record SlotParts : Type 0 where
  pub env : List EnvVar
  pub volume_mounts : List VolumeMount
  pub volumes : List Volume

abbrev pub no_slot : SlotParts
no_slot = record { env = []; volume_mounts = []; volumes = [] }

abbrev pub slot_parts : ClientOrchestrator → Text → ℕ → SlotParts
slot_parts o pool slot = record {
  env = plain_env (codes "AGENT_AUTH_SLOT_DIR") (codes "/var/run/session-platform/auth-slot") ∷ [];
  volume_mounts = mount (codes "auth-slot") (codes "/var/run/session-platform/auth-slot") ∷ [];
  volumes =
      record {
        name = codes "auth-slot";
        source = claim (auth_slot_claim_name o.namespace pool slot);
      }
      ∷ [];
}

-- A slot is given exactly where the type needs one.
unfoldable pub attach_auth_slot :
    ClientOrchestrator → Option Text → Option ℕ → Result Error SlotParts
attach_auth_slot o none none = ok no_slot
attach_auth_slot o none (some slot) = err (failed 21)
attach_auth_slot o (some pool) none = err (failed 22)
attach_auth_slot o (some pool) (some slot) = ok (slot_parts o pool slot)
