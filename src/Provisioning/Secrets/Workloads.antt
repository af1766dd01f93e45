-- ===== src/Provisioning/Secrets/Workloads.antt =====
-- control-plane/internal/adapter/k8s/client_orchestrator.go: the keys of Secrets that the containers of a
-- workload's pod read.
use session_platform.Prelude.Yields.{Yields, Yields-ok, Yields-err, Yields-if, Yields-and_then}
use session_platform.Prelude.{
  ℕ, ◌≡◌, refl, sym, ap, ◌∙◌, Option, none, some, [], ◌∷◌, ◌++◌, Text, codes, is_empty, ok,
  and_then,
}
use session_platform.Session.Errors.{failed}
use session_platform.Session.Types.{
  WorkloadType, unspecified, shell, claude_code, approval_gated, minimax_code, codex_chat,
  codex_task, codex, normalize_workload_type,
}
use session_platform.Pods.{WorkloadSpec}
use session_platform.Provisioning.{Pod, ClientOrchestrator, HelperEndpoints}
use session_platform.Provisioning.Names.{helper_pod_name_for, image_for}
use session_platform.Provisioning.Parts.{
  plain_env, codex_profile_for, auth_pool_for, SlotParts, slot_parts, no_slot, attach_auth_slot,
}
use session_platform.Provisioning.Workloads.{WorkloadParts}
use session_platform.Provisioning.Build.{
  restored, normalized, workload_parts, session_pod, build_typed, build_pod,
}
use session_platform.Provisioning.Secrets.{
  env_secrets, container_secrets, env_secrets-quiet, env_secrets-given,
}
use session_platform.Provisioning.Secrets.Parts.{
  workload_secrets, parts_secrets, shell-secrets, approval_gated-secrets, minimax_code-secrets,
  codex-secrets, claude_code-secrets,
}

module _ (o : ClientOrchestrator) where
  slot-secrets :
      (pool : Option Text) (slot : Option ℕ)
      → Yields (λ (s : SlotParts). env_secrets s.env ≡ []) (attach_auth_slot o pool slot)
  unfolding attach_auth_slot env_secrets
  slot-secrets none none = Yields-ok no_slot refl
  slot-secrets none (some n) = Yields-err (failed 21)
  slot-secrets (some pool) none = Yields-err (failed 22)
  slot-secrets (some pool) (some n) = Yields-ok (slot_parts o pool n) refl

  module _ (session_id checkpoint_ref suffix : Text) where
    session_pod-secrets :
        (workload : WorkloadType) (image : Text) (parts : WorkloadParts) (slot : SlotParts)
        → env_secrets slot.env ≡ []
        → container_secrets
            ((session_pod o session_id checkpoint_ref suffix workload image parts slot).containers)
          ≡ parts_secrets o parts
    unfolding session_pod container_secrets parts_secrets env_secrets
    session_pod-secrets workload image parts slot h =
        ap (λ rest. rest ++ container_secrets parts.sidecars)
          (env_secrets-quiet (parts.env ++ slot.env) _ (
              env_secrets-given (restored o session_id checkpoint_ref suffix)
                (plain_env (codes "DATA_PLANE_RESTORE_MODE") (codes "1") ∷ []) refl)
            ∙ env_secrets-quiet parts.env slot.env h)

    parts-secrets :
        (spec : WorkloadSpec) (helper : HelperEndpoints) (image : Text) (workload : WorkloadType)
        → parts_secrets o
            (workload_parts o session_id checkpoint_ref suffix spec helper image workload)
          ≡ workload_secrets o workload
    unfolding workload_parts workload_secrets codex_profile_for parts_secrets env_secrets
        container_secrets
    parts-secrets spec helper image unspecified = refl
    parts-secrets spec helper image shell = shell-secrets o
    parts-secrets spec helper image claude_code = claude_code-secrets o spec image
    parts-secrets spec helper image approval_gated =
        approval_gated-secrets o spec helper (helper_pod_name_for session_id suffix)
    parts-secrets spec helper image minimax_code =
        minimax_code-secrets o spec helper (helper_pod_name_for session_id suffix)
    parts-secrets spec helper image codex_chat = codex-secrets o session_id spec codex_chat image
    parts-secrets spec helper image codex_task = codex-secrets o session_id spec codex_task image
    parts-secrets spec helper image codex = refl
    parts-secrets spec helper image (WorkloadType.other name) = refl

    build_typed-secrets :
        (spec : WorkloadSpec) (helper : HelperEndpoints) (workload : WorkloadType)
        → Yields
            (λ (pod : Pod). container_secrets pod.containers ≡ workload_secrets o workload)
            (build_typed o session_id checkpoint_ref suffix spec helper workload)
    unfolding build_typed
    build_typed-secrets spec helper workload =
        Yields-and_then (normalized o session_id checkpoint_ref suffix workload spec) λ spec h.
          Yields-and_then (image_for o workload) λ image h.
            Yields-and_then
              (attach_auth_slot o (auth_pool_for workload o.claude_auth_mode) spec.auth_slot)
              λ slot h.
                let exact =
                  session_pod-secrets workload image
                    (workload_parts o session_id checkpoint_ref suffix spec helper image workload)
                    slot
                    ((slot-secrets (auth_pool_for workload o.claude_auth_mode) spec.auth_slot).at
                      slot h)
                  ∙ parts-secrets spec helper image workload in
                Yields-if (is_empty checkpoint_ref) (Yields-ok _ exact)
                  (Yields-if (is_empty suffix) (Yields-err (failed 23)) (Yields-ok _ exact))

    -- The pod that `build_pod` returns reads from Secrets exactly what its type is meant to: nothing for
    -- shell, approval-gated and minimax-code; the K3s MCP token for claude-code, with the provider's token
    -- in a proxy unless a login of a subscription is used; the K3s MCP token of its own Secret for codex.
    pub build_pod-secrets :
        (spec : WorkloadSpec) (helper : HelperEndpoints) {workload : WorkloadType} {pod : Pod}
        → normalize_workload_type spec.type ≡ ok workload
        → build_pod o session_id checkpoint_ref suffix spec helper ≡ ok pod
        → container_secrets pod.containers ≡ workload_secrets o workload
    unfolding build_pod
    build_pod-secrets spec helper {workload} typed built =
        (build_typed-secrets spec helper workload).at _ (
          sym (
            ap (λ r. and_then r (build_typed o session_id checkpoint_ref suffix spec helper)) typed)
          ∙ built)
