-- ===== src/Provisioning/Secrets/Helpers.antt =====
-- control-plane/internal/adapter/k8s/{client_orchestrator,minimax_code,repo_access,drop}.go: the keys of
-- Secrets that the containers of a helper pod read.
use session_platform.Prelude.{
  ◌≡◌, refl, ap, ◌∙◌, Bool, true, false, Option, none, some, List, [], ◌∷◌, ◌++◌, Text, codes,
  if◌then◌else◌, ok, text_eq_refl,
}
use session_platform.Prelude.Yields.{Yields, Yields-ok, Yields-and_then}
use session_platform.Session.Types.{WorkloadType}
use session_platform.Provisioning.{Container, Pod, ClientOrchestrator}
use session_platform.Provisioning.Names.{image_for, helper_pod_name_for, shared_claim_name}
use session_platform.Provisioning.Parts.{
  secret_env, config_map_env, optional_secret_env, optional_config_map_env, given,
  shared_volume_enabled, shared_env, credential_proxy_container, k3s_mcp_proxy, repoint_to_mini_max,
  marketplace_env,
}
use session_platform.Provisioning.Secrets.{
  env_secrets, container_secrets, env_secrets-append, env_secrets-quiet, env_secrets-given,
}
use session_platform.Provisioning.Helpers.{
  add_repo_access, add_drop, base_mcp, mcp_parts, repo_access_enabled, drop_enabled,
  repo_access_env, drop_env, is_minimax, provider_proxy, helper_proxy_containers, helper_pod,
  helper_pod_spec,
}

-- What a helper pod is meant to read: its type's own Secret, and no other.
unfoldable pub helper_secrets : ClientOrchestrator → WorkloadType → List (Text × Text)
helper_secrets o workload =
    if is_minimax workload
    then (o.mini_max_credentials_secret, codes "auth-token")
      ∷ (o.mini_max_credentials_secret, codes "k3s-mcp-token")
      ∷ []
    else (o.claude_credentials_secret, codes "auth-token")
      ∷ given (repo_access_enabled o) ((o.claude_credentials_secret, codes "k3s-mcp-token") ∷ [])

module _ (o : ClientOrchestrator) (session_id : Text) where
  mcp-secrets : (claim_name : Text) → env_secrets ((mcp_parts o session_id claim_name).env) ≡ []
  unfolding add_drop add_repo_access env_secrets
  mcp-secrets claim_name =
      let base = (base_mcp o session_id).env in
      let with_volume = base ++ given (shared_volume_enabled o) (shared_env ∷ []) in
      env_secrets-quiet (with_volume ++ given (repo_access_enabled o) (repo_access_env o))
        (given (drop_enabled o) (drop_env o)) (env_secrets-given (drop_enabled o) (drop_env o) refl)
      ∙ env_secrets-quiet with_volume (given (repo_access_enabled o) (repo_access_env o))
          (env_secrets-given (repo_access_enabled o) (repo_access_env o) refl)
      ∙ env_secrets-quiet base (given (shared_volume_enabled o) (shared_env ∷ []))
          (env_secrets-given (shared_volume_enabled o) (shared_env ∷ []) refl)

  provider-secrets :
      (image : Text)
      → env_secrets ((provider_proxy o image).env)
        ≡ (o.claude_credentials_secret, codes "auth-token") ∷ []
  unfolding credential_proxy_container secret_env config_map_env optional_config_map_env env_secrets
  provider-secrets image = refl

  -- Every reference of the provider's proxy is moved.
  repointed-secrets :
      (image : Text)
      → env_secrets ((repoint_to_mini_max o (provider_proxy o image)).env)
        ≡ (o.mini_max_credentials_secret, codes "auth-token") ∷ []
  unfolding repoint_to_mini_max credential_proxy_container secret_env config_map_env
      optional_config_map_env env_secrets
  repointed-secrets image =
      ap
        (λ b.
          (
            (if b then o.mini_max_credentials_secret else o.claude_credentials_secret),
            codes "auth-token",
          )
          ∷ [])
        (text_eq_refl o.claude_credentials_secret)

  marketplace-secrets : (plugins : Option (List Text)) → env_secrets (marketplace_env plugins) ≡ []
  unfolding env_secrets
  marketplace-secrets none = refl
  marketplace-secrets (some names) = refl

  k3s-secrets :
      (image secret : Text) (marketplace : Bool) (plugins : Option (List Text))
      → env_secrets ((k3s_mcp_proxy o session_id image secret marketplace plugins).env)
        ≡ (secret, codes "k3s-mcp-token") ∷ []
  unfolding k3s_mcp_proxy optional_secret_env env_secrets
  k3s-secrets image secret marketplace plugins =
      env_secrets-append (given marketplace (marketplace_env plugins)) _
      ∙ ap (λ rest. rest ++ (secret, codes "k3s-mcp-token") ∷ [])
          (env_secrets-given marketplace (marketplace_env plugins) (marketplace-secrets plugins))

  abbrev claude_proxy : Text → Container
  claude_proxy image = k3s_mcp_proxy o session_id image o.claude_credentials_secret false none

  abbrev claude_token : Text × Text
  claude_token = (o.claude_credentials_secret, codes "k3s-mcp-token")

  proxies-secrets :
      (workload : WorkloadType) (image : Text) (plugins : Option (List Text))
      → container_secrets (helper_proxy_containers o session_id workload image plugins)
        ≡ helper_secrets o workload
  unfolding helper_proxy_containers helper_secrets container_secrets
  proxies-secrets workload image plugins = by_type (is_minimax workload)
    where
      with_access :
          (b : Bool)
          → container_secrets (given b (claude_proxy image ∷ [])) ≡ given b (claude_token ∷ [])
      with_access true =
          ap (λ rest. rest ++ []) (k3s-secrets image o.claude_credentials_secret false none)
      with_access false = refl

      by_type :
          (b : Bool)
          → container_secrets (
              if b
              then repoint_to_mini_max o (provider_proxy o image)
                ∷ k3s_mcp_proxy o session_id image o.mini_max_credentials_secret true plugins
                ∷ []
              else provider_proxy o image ∷ given (repo_access_enabled o) (claude_proxy image ∷ []))
            ≡ (if b
                then (o.mini_max_credentials_secret, codes "auth-token")
                  ∷ (o.mini_max_credentials_secret, codes "k3s-mcp-token")
                  ∷ []
                else (o.claude_credentials_secret, codes "auth-token")
                  ∷ given (repo_access_enabled o) (claude_token ∷ []))
      by_type true = λ i.
          repointed-secrets image i
          ++ (k3s-secrets image o.mini_max_credentials_secret true plugins i ++ [])
      by_type false = λ i. provider-secrets image i ++ with_access (repo_access_enabled o) i

  -- The helper pod that `helper_pod_spec` returns reads from Secrets exactly the tokens of its type's own
  -- Secret: minimax-code's provider and K3s MCP tokens, or else claude-code's provider token, with its K3s
  -- MCP token where repository access is on.
  pub helper_pod_spec-secrets :
      (suffix : Text) (workload : WorkloadType) (plugins : Option (List Text)) {pod : Pod}
      → helper_pod_spec o session_id suffix workload plugins ≡ ok pod
      → container_secrets pod.containers ≡ helper_secrets o workload
  unfolding helper_pod_spec helper_pod container_secrets
  helper_pod_spec-secrets suffix workload plugins {pod} built = returned.at pod built
    where
      returned :
          Yields
            (λ (pod : Pod). container_secrets pod.containers ≡ helper_secrets o workload)
            (helper_pod_spec o session_id suffix workload plugins)
      returned = Yields-and_then (image_for o workload) λ image h. Yields-ok _ λ i.
          mcp-secrets (shared_claim_name (helper_pod_name_for session_id suffix)) i
          ++ proxies-secrets workload image plugins i
