-- ===== src/Provisioning.antt =====
-- control-plane/internal/adapter/k8s: the pods that the client-go orchestrator makes. Only the fields
-- that the code sets are here; a resource quantity is a text and a port a number.
pub mod Names
pub mod Parts
pub mod Workloads
pub mod Build
pub mod Secrets
pub mod Helpers
pub mod Boundary
pub mod Start
pub mod Undone
pub mod Provisioned
pub mod Cleanup
pub mod Options
pub mod Configured
pub mod Listening
mod Tests
use session_platform.Prelude.{ℕ, Bool, Option, List, [], ◌∷◌, ◌++◌, Text}
use session_platform.Session.Types.{WorkloadType}

pub data EnvSource : Type 0 where
  plain : (value : Text) → EnvSource
  from_secret : (secret key : Text) (optional : Bool) → EnvSource
  from_config : (config_map key : Text) (optional : Bool) → EnvSource

pub record EnvVar : Type 0 where
  pub name : Text
  pub source : EnvSource

pub record VolumeMount : Type 0 where
  pub name : Text
  pub mount_path : Text
  pub read_only : Bool

pub data VolumeSource : Type 0 where
  empty_dir : VolumeSource
  claim : (claim_name : Text) → VolumeSource
  projected_token : (audience path : Text) (expiration_seconds : ℕ) → VolumeSource

pub record Volume : Type 0 where
  pub name : Text
  pub source : VolumeSource

pub data PullPolicy : Type 0 where
  pull_always : PullPolicy
  pull_if_not_present : PullPolicy

pub data SecurityContext : Type 0 where
  image_default : SecurityContext
  hardened : SecurityContext
  shell_user : SecurityContext

-- By HTTP from the kubelet, or by a connection to loopback from inside the container.
pub data Probe : Type 0 where
  http_get : (path : Text) (port : ℕ) → Probe
  exec_connect : (port : ℕ) → Probe

pub record Container : Type 0 where
  pub name : Text
  pub image : Text
  pub pull_policy : PullPolicy
  pub ports : List (Text × ℕ)
  pub env : List EnvVar
  pub volume_mounts : List VolumeMount
  pub readiness_probe : Probe
  pub security_context : SecurityContext

pub record Pod : Type 0 where
  pub name : Text
  pub namespace : Text
  pub annotations : List (Text × Text)
  pub labels : List (Text × Text)
  pub service_account_name : Text
  pub automount_service_account_token : Bool
  pub fs_group : Option ℕ
  pub containers : List Container
  pub volumes : List Volume

pub data ClaudeCodeAuthMode : Type 0 where
  gateway_auth : ClaudeCodeAuthMode
  subscription_auth : ClaudeCodeAuthMode

pub record CodexProfile : Type 0 where
  pub credentials_secret : Text
  pub config_config_map : Text
  pub plugins : Text

-- What the options set; `codex_chat_profile` gathers the fields of codex-chat.
pub record ClientOrchestrator : Type 0 where
  pub namespace : Text
  pub image : Text
  pub claude_credentials_secret : Text
  pub claude_config_config_map : Text
  pub approval_gateway_url : Text
  pub repo_access_url : Text
  pub drop_url : Text
  pub mini_max_credentials_secret : Text
  pub mini_max_config_config_map : Text
  pub codex_chat_profile : CodexProfile
  pub codex_task : CodexProfile
  pub claude_auth_mode : ClaudeCodeAuthMode
  pub shared_volume_storage_class : Text
  pub shared_volume_size : Text
  pub workload_images : WorkloadType → Option Text
  pub shell : Text
  pub agent_port : ℕ

-- The addresses of a session's helper pod, empty without one.
pub record HelperEndpoints : Type 0 where
  pub proxy_url : Text
  pub mcp_url : Text
  pub k3s_mcp_url : Text

abbrev pub no_helper : HelperEndpoints
no_helper = record { proxy_url = []; mcp_url = []; k3s_mcp_url = [] }
