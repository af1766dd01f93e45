-- ===== src/Provisioning/Helpers.antt =====
-- control-plane/internal/adapter/k8s/{client_orchestrator,minimax_code,repo_access,drop}.go: the helper pod
-- of a session behind the approval gate.
use session_platform.Prelude.{
  Bool, true, false, not, Option, none, List, [], ◌∷◌, ◌++◌, Text, codes, is_empty, if◌then◌else◌,
  Result, ok, and_then,
}
use session_platform.Session.Errors.{Error}
use session_platform.Session.Types.{WorkloadType, minimax_code}
use session_platform.Slots.Leases.{itoa}
use session_platform.Provisioning.{
  EnvVar, Volume, VolumeMount, projected_token, hardened, exec_connect, Container, Pod,
  ClientOrchestrator,
}
use session_platform.Provisioning.Names.{
  helper_pod_name_for, shared_claim_name, workload_name, pull_policy_for_image, image_for,
  session_mcp_port, k3s_mcp_proxy_port, url_of,
}
use session_platform.Provisioning.Parts.{
  plain_env, given, mount, read_only_mount, scratch, shared_volume_enabled, shared_volume,
  shared_volume_mount, shared_env, credential_proxy_container, k3s_mcp_proxy, repoint_to_mini_max,
}

-- The session MCP container with the volumes of its pod, while features are added to them.
pub record McpParts : Type 0 where
  pub env : List EnvVar
  pub volume_mounts : List VolumeMount
  pub volumes : List Volume

abbrev token_volume : (name audience : Text) → Volume
token_volume name audience = record {
  name = name;
  source = projected_token audience (codes "token") 3600;
}

abbrev pub base_mcp : ClientOrchestrator → Text → McpParts
base_mcp o session_id = record {
  env =
      plain_env (codes "DATA_PLANE_WORKLOAD") (codes "mcp")
      ∷ plain_env (codes "DATA_PLANE_AGENT_ADDR") (codes ":" ++ itoa session_mcp_port)
      ∷ plain_env (codes "SESSION_ID") session_id
      ∷ plain_env (codes "APPROVAL_GATEWAY_URL") o.approval_gateway_url
      ∷ plain_env (codes "APPROVAL_GATEWAY_TOKEN_FILE") (codes "/var/run/secrets/pocket-aide/token")
      ∷ [];
  volume_mounts =
      read_only_mount (codes "approval-gateway-token") (codes "/var/run/secrets/pocket-aide")
      ∷ mount (codes "session-mcp-tmp") (codes "/tmp")
      ∷ [];
  volumes =
      token_volume (codes "approval-gateway-token") (codes "pocket-aide")
      ∷ scratch (codes "session-mcp-tmp")
      ∷ [];
}

abbrev pub add_shared : ClientOrchestrator → Text → McpParts → McpParts
add_shared o claim_name mcp = record {
  env = mcp.env ++ given (shared_volume_enabled o) (shared_env ∷ []);
  volume_mounts = mcp.volume_mounts ++ given (shared_volume_enabled o) (shared_volume_mount ∷ []);
  volumes = mcp.volumes ++ given (shared_volume_enabled o) (shared_volume claim_name ∷ []);
}

abbrev pub repo_access_enabled : ClientOrchestrator → Bool
repo_access_enabled o = not (is_empty o.repo_access_url)

abbrev pub repo_access_env : ClientOrchestrator → List EnvVar
repo_access_env o =
    plain_env (codes "REPO_ACCESS_URL") o.repo_access_url
    ∷ plain_env (codes "REPO_ACCESS_TOKEN_FILE") (codes "/var/run/secrets/session-platform/token")
    ∷ plain_env (codes "K3S_MCP_PROXY_URL") (url_of (codes "127.0.0.1") k3s_mcp_proxy_port)
    ∷ []

unfoldable pub add_repo_access : ClientOrchestrator → McpParts → McpParts
add_repo_access o mcp = record {
  env = mcp.env ++ given (repo_access_enabled o) (repo_access_env o);
  volume_mounts =
      mcp.volume_mounts
      ++ given (repo_access_enabled o) (
          read_only_mount (codes "repo-access-token") (codes "/var/run/secrets/session-platform")
          ∷ []);
  volumes =
      mcp.volumes
      ++ given (repo_access_enabled o)
          (token_volume (codes "repo-access-token") (codes "session-platform") ∷ []);
}

abbrev pub drop_enabled : ClientOrchestrator → Bool
drop_enabled o = not (is_empty o.drop_url)

abbrev pub drop_env : ClientOrchestrator → List EnvVar
drop_env o =
    plain_env (codes "DROP_URL") o.drop_url
    ∷ plain_env (codes "DROP_TOKEN_FILE") (codes "/var/run/secrets/drop/token")
    ∷ []

unfoldable pub add_drop : ClientOrchestrator → McpParts → McpParts
add_drop o mcp = record {
  env = mcp.env ++ given (drop_enabled o) (drop_env o);
  volume_mounts =
      mcp.volume_mounts
      ++ given (drop_enabled o)
          (read_only_mount (codes "drop-token") (codes "/var/run/secrets/drop") ∷ []);
  volumes =
      mcp.volumes ++ given (drop_enabled o) (token_volume (codes "drop-token") (codes "drop") ∷ []);
}

abbrev pub mcp_parts : ClientOrchestrator → Text → Text → McpParts
mcp_parts o session_id claim_name =
    add_drop o (add_repo_access o (add_shared o claim_name (base_mcp o session_id)))

abbrev pub is_minimax : WorkloadType → Bool
is_minimax minimax_code = true
is_minimax _ = false

abbrev pub provider_proxy : ClientOrchestrator → Text → Container
provider_proxy o image =
    credential_proxy_container o (codes "credential-proxy") image (codes "0.0.0.0:8091")
      (codes "helper")

unfoldable pub helper_proxy_containers :
    ClientOrchestrator → Text → WorkloadType → Text → Option (List Text) → List Container
helper_proxy_containers o session_id workload image plugins =
    if is_minimax workload
    then repoint_to_mini_max o (provider_proxy o image)
      ∷ k3s_mcp_proxy o session_id image o.mini_max_credentials_secret true plugins
      ∷ []
    else provider_proxy o image
      ∷ given (repo_access_enabled o)
          (k3s_mcp_proxy o session_id image o.claude_credentials_secret false none ∷ [])

unfoldable pub helper_proxy_volumes : WorkloadType → List Volume
helper_proxy_volumes workload = given (is_minimax workload) (scratch (codes "marketplace") ∷ [])

abbrev pub session_mcp_container : Text → McpParts → Container
session_mcp_container image mcp = record {
  name = codes "session-mcp";
  image = image;
  pull_policy = pull_policy_for_image image;
  ports = (codes "mcp", session_mcp_port) ∷ [];
  env = mcp.env;
  volume_mounts = mcp.volume_mounts;
  readiness_probe = exec_connect session_mcp_port;
  security_context = hardened;
}

unfoldable pub helper_pod :
    ClientOrchestrator → Text → Text → WorkloadType → Option (List Text) → Text → Pod
helper_pod o session_id suffix workload plugins image =
    let name = helper_pod_name_for session_id suffix in
    let mcp = mcp_parts o session_id (shared_claim_name name) in
    record {
      name = name;
      namespace = o.namespace;
      annotations = [];
      labels =
          (codes "session-id", session_id)
          ∷ (codes "session-platform.dev/workload-type", workload_name workload)
          ∷ (codes "session-platform.dev/pod-role", codes "helper")
          ∷ (codes "app.kubernetes.io/managed-by", codes "control-plane")
          ∷ [];
      service_account_name = codes "session-mcp";
      automount_service_account_token = false;
      fs_group = none;
      containers =
          session_mcp_container image mcp
          ∷ helper_proxy_containers o session_id workload image plugins;
      volumes = mcp.volumes ++ helper_proxy_volumes workload;
    }

unfoldable pub helper_pod_spec :
    ClientOrchestrator → Text → Text → WorkloadType → Option (List Text) → Result Error Pod
helper_pod_spec o session_id suffix workload plugins =
    and_then (image_for o workload)
      λ image. ok (helper_pod o session_id suffix workload plugins image)
