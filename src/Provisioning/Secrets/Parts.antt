-- ===== src/Provisioning/Secrets/Parts.antt =====
-- control-plane/internal/adapter/k8s/client_orchestrator.go: the keys of Secrets that what each workload type adds to its pod reads.
use session_platform.Prelude.{
  arith, ◌≡◌, refl, ap, ◌∙◌, not, Option, none, some, List, [], ◌∷◌, ◌++◌, Text, codes, is_empty,
}
use session_platform.Session.Types.{WorkloadType, claude_code, codex_chat, codex_task}
use session_platform.Pods.{WorkloadSpec}
use session_platform.Provisioning.{
  ClaudeCodeAuthMode, gateway_auth, subscription_auth, ClientOrchestrator, HelperEndpoints,
}
use session_platform.Provisioning.Parts.{
  plain_env, secret_env, config_map_env, optional_secret_env, optional_config_map_env,
  shared_volume_enabled, shared_env, credential_proxy_container, codex_k3s_mcp_proxy,
  codex_profile_for,
}
use session_platform.Provisioning.Workloads.{
  WorkloadParts, model_env, shell_parts, plugins_env, effort_env, auth_env, claude_sidecars,
  approval_gated_parts, claude_code_parts, mini_max_code_pod, codex_pod,
}
use session_platform.Provisioning.Secrets.{
  source_secrets, env_secrets, container_secrets, env_secrets-quiet, env_secrets-given,
}

abbrev claude_secrets : ClientOrchestrator → ClaudeCodeAuthMode → List (Text × Text)
claude_secrets o gateway_auth = (o.claude_credentials_secret, codes "auth-token") ∷ []
claude_secrets o subscription_auth = []

-- What a type is meant to read: nothing for a workload behind the approval gate.
unfoldable pub workload_secrets : ClientOrchestrator → WorkloadType → List (Text × Text)
workload_secrets o claude_code =
    (o.claude_credentials_secret, codes "k3s-mcp-token") ∷ claude_secrets o o.claude_auth_mode
workload_secrets o codex_chat =
    (o.codex_chat_profile.credentials_secret, codes "k3s-mcp-token") ∷ []
workload_secrets o codex_task = (o.codex_task.credentials_secret, codes "k3s-mcp-token") ∷ []
workload_secrets o _ = []

source-model_env :
    (name model config_map key : Text)
    → source_secrets ((model_env name model config_map key).source) ≡ []
unfolding model_env optional_config_map_env
source-model_env name model config_map key = ground arith

-- The model's variable comes first in every agent's container.
model_first :
    (name model config_map key : Text) {t s : List (Text × Text)}
    → t ≡ s
    → source_secrets ((model_env name model config_map key).source) ++ t ≡ s
model_first name model config_map key {t} h =
    ap (λ rest. rest ++ t) (source-model_env name model config_map key) ∙ h

module _ (o : ClientOrchestrator) where
  unfoldable pub parts_secrets : WorkloadParts → List (Text × Text)
  parts_secrets parts = env_secrets parts.env ++ container_secrets parts.sidecars

  pub shell-secrets : parts_secrets (shell_parts o) ≡ []
  unfolding shell_parts env_secrets container_secrets parts_secrets
  shell-secrets = ground arith

  pub approval_gated-secrets :
      (spec : WorkloadSpec) (helper : HelperEndpoints) (helper_pod : Text)
      → parts_secrets (approval_gated_parts o spec helper helper_pod) ≡ []
  unfolding approval_gated_parts env_secrets container_secrets parts_secrets
  approval_gated-secrets spec helper helper_pod =
      ap (λ rest. rest ++ [])
        (model_first _ spec.model _ _
          (env_secrets-given (shared_volume_enabled o) (shared_env ∷ []) refl))

  pub minimax_code-secrets :
      (spec : WorkloadSpec) (helper : HelperEndpoints) (helper_pod : Text)
      → parts_secrets (mini_max_code_pod o spec helper helper_pod) ≡ []
  unfolding mini_max_code_pod env_secrets container_secrets parts_secrets
  minimax_code-secrets spec helper helper_pod =
      ap (λ rest. rest ++ [])
        (model_first _ spec.model _ _
          (env_secrets-given (shared_volume_enabled o) (shared_env ∷ []) refl))

  pub codex-secrets :
      (session_id : Text) (spec : WorkloadSpec) (workload : WorkloadType) (image : Text)
      → parts_secrets (codex_pod o session_id spec workload image)
        ≡ ((codex_profile_for o workload).credentials_secret, codes "k3s-mcp-token") ∷ []
  unfolding codex_pod codex_k3s_mcp_proxy optional_secret_env optional_config_map_env env_secrets
      container_secrets parts_secrets
  codex-secrets session_id spec workload image =
      ap
        (λ rest.
          rest ++ ((codex_profile_for o workload).credentials_secret, codes "k3s-mcp-token") ∷ [])
        (model_first _ spec.model _ _ (
          env_secrets-given (not (is_empty spec.reasoning_effort))
            (plain_env (codes "CODEX_REASONING_EFFORT") spec.reasoning_effort ∷ []) refl))

  auth-secrets : (mode : ClaudeCodeAuthMode) → env_secrets (auth_env mode) ≡ []
  unfolding env_secrets
  auth-secrets gateway_auth = refl
  auth-secrets subscription_auth = refl

  sidecar-secrets :
      (image : Text) (mode : ClaudeCodeAuthMode)
      → container_secrets (claude_sidecars o image mode) ≡ claude_secrets o mode
  unfolding credential_proxy_container secret_env config_map_env optional_config_map_env env_secrets
      container_secrets
  sidecar-secrets image gateway_auth = refl
  sidecar-secrets image subscription_auth = refl

  plugins-secrets : (plugins : Option (List Text)) → env_secrets (plugins_env plugins) ≡ []
  unfolding env_secrets
  plugins-secrets none = refl
  plugins-secrets (some names) = refl

  optional-secrets :
      (spec : WorkloadSpec)
      → env_secrets (
          plugins_env spec.plugins
          ++ effort_env (codes "CLAUDE_CODE_EFFORT") spec.reasoning_effort
          ++ auth_env o.claude_auth_mode)
        ≡ []
  unfolding env_secrets
  optional-secrets spec =
      env_secrets-quiet
        (plugins_env spec.plugins ++ effort_env (codes "CLAUDE_CODE_EFFORT") spec.reasoning_effort)
        _ (auth-secrets o.claude_auth_mode)
      ∙ env_secrets-quiet (plugins_env spec.plugins) _ (
          env_secrets-given (not (is_empty spec.reasoning_effort))
            (plain_env (codes "CLAUDE_CODE_EFFORT") spec.reasoning_effort ∷ []) refl)
      ∙ plugins-secrets spec.plugins

  pub claude_code-secrets :
      (spec : WorkloadSpec) (image : Text)
      → parts_secrets (claude_code_parts o spec image) ≡ workload_secrets o claude_code
  unfolding claude_code_parts secret_env optional_config_map_env env_secrets container_secrets
      parts_secrets workload_secrets
  claude_code-secrets spec image =
      ap (λ rest. rest ++ container_secrets (claude_sidecars o image o.claude_auth_mode))
        (model_first _ spec.model _ _ (
          ap (λ rest. (o.claude_credentials_secret, codes "k3s-mcp-token") ∷ rest)
            (optional-secrets spec)))
      ∙ ap (λ rest. (o.claude_credentials_secret, codes "k3s-mcp-token") ∷ rest)
          (sidecar-secrets image o.claude_auth_mode)
