-- ===== src/Provisioning/Secrets.antt =====
-- control-plane/internal/adapter/k8s/client_orchestrator.go: the keys of Secrets that containers read.
pub mod Parts
pub mod Workloads
pub mod Helpers
use mathlib.Core.List.{append_assoc, append-nil}
use session_platform.Prelude.Yields.{Yields, Yields-ok, Yields-err, Yields-if, Yields-and_then}
use session_platform.Prelude.{
  arith, ℕ, ◌≡◌, refl, sym, ap, ◌∙◌, Bool, true, false, not, Option, none, some, List, [], ◌∷◌,
  ◌++◌, Text, codes, is_empty, ok, and_then,
}
use session_platform.Session.Errors.{failed}
use session_platform.Session.Types.{
  WorkloadType, unspecified, shell, claude_code, approval_gated, minimax_code, codex_chat,
  codex_task, codex, normalize_workload_type,
}
use session_platform.Pods.{WorkloadSpec}
use session_platform.Provisioning.{
  EnvSource, from_secret, EnvVar, Container, Pod, ClaudeCodeAuthMode, gateway_auth,
  subscription_auth, ClientOrchestrator, HelperEndpoints,
}
use session_platform.Provisioning.Names.{helper_pod_name_for, image_for}
use session_platform.Provisioning.Parts.{
  plain_env, secret_env, config_map_env, optional_secret_env, optional_config_map_env, given,
  shared_volume_enabled, shared_env, credential_proxy_container, codex_k3s_mcp_proxy,
  codex_profile_for, auth_pool_for, SlotParts, slot_parts, no_slot, attach_auth_slot,
}
use session_platform.Provisioning.Workloads.{
  WorkloadParts, model_env, shell_parts, plugins_env, effort_env, auth_env, claude_sidecars,
  approval_gated_parts, claude_code_parts, mini_max_code_pod, codex_pod,
}
use session_platform.Provisioning.Build.{
  restored, normalized, workload_parts, session_pod, build_typed, build_pod,
}

abbrev pub source_secrets : EnvSource → List (Text × Text)
source_secrets (from_secret secret key optional) = (secret, key) ∷ []
source_secrets _ = []

unfoldable pub env_secrets : List EnvVar → List (Text × Text)
env_secrets [] = []
env_secrets (v ∷ env) = source_secrets v.source ++ env_secrets env

unfoldable pub container_secrets : List Container → List (Text × Text)
container_secrets [] = []
container_secrets (c ∷ cs) = env_secrets c.env ++ container_secrets cs

pub env_secrets-append :
    (xs ys : List EnvVar) → env_secrets (xs ++ ys) ≡ env_secrets xs ++ env_secrets ys
unfolding env_secrets
env_secrets-append [] ys = refl
env_secrets-append (x ∷ xs) ys =
    ap (λ rest. source_secrets x.source ++ rest) (env_secrets-append xs ys)
    ∙ sym (append_assoc (source_secrets x.source) (env_secrets xs) (env_secrets ys))

-- What adds no secret.
pub env_secrets-quiet :
    (xs ys : List EnvVar) → env_secrets ys ≡ [] → env_secrets (xs ++ ys) ≡ env_secrets xs
env_secrets-quiet xs ys h =
    env_secrets-append xs ys ∙ ap (λ rest. env_secrets xs ++ rest) h ∙ append-nil (env_secrets xs)

pub env_secrets-given :
    (b : Bool) (xs : List EnvVar) → env_secrets xs ≡ [] → env_secrets (given b xs) ≡ []
unfolding env_secrets
env_secrets-given true xs h = h
env_secrets-given false xs h = refl
