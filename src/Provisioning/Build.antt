-- ===== src/Provisioning/Build.antt =====
-- control-plane/internal/adapter/k8s/client_orchestrator.go: `buildPod`, which normalises the settings
-- and puts the pod of a workload together.
use session_platform.Prelude.{
  ℕ, Bool, true, false, not, Option, none, some, [], ◌∷◌, ◌++◌, Text, codes, is_empty,
  if◌then◌else◌, Result, ok, err, and_then,
}
use session_platform.Session.Errors.{Error, failed}
use session_platform.Session.Types.{
  WorkloadType, shell, claude_code, approval_gated, minimax_code, codex_chat, codex_task,
  normalize_workload_type,
}
use session_platform.Session.Catalog.{normalize_reasoning_effort}
use session_platform.Session.Models.{normalize_model}
use session_platform.Session.Plugins.{normalize_plugins}
use session_platform.Pods.{WorkloadSpec}
use session_platform.Provisioning.{http_get, Container, Pod, ClientOrchestrator, HelperEndpoints}
use session_platform.Provisioning.Names.{
  pod_name, restore_pod_name, helper_pod_name_for, workload_name, pull_policy_for_image, image_for,
  workload_agent_port,
}
use session_platform.Provisioning.Parts.{
  plain_env, given, auth_pool_for, SlotParts, attach_auth_slot,
}
use session_platform.Provisioning.Workloads.{
  WorkloadParts, shell_parts, claude_code_parts, approval_gated_parts, mini_max_code_pod, codex_pod,
  no_parts,
}

module _ (o : ClientOrchestrator) (session_id checkpoint_ref suffix : Text) where
  -- The `switch` on the type; `spec` is normalised.
  unfoldable pub workload_parts :
      WorkloadSpec → HelperEndpoints → Text → WorkloadType → WorkloadParts
  workload_parts spec helper image shell = shell_parts o
  workload_parts spec helper image claude_code = claude_code_parts o spec image
  workload_parts spec helper image approval_gated =
      approval_gated_parts o spec helper (helper_pod_name_for session_id suffix)
  workload_parts spec helper image minimax_code =
      mini_max_code_pod o spec helper (helper_pod_name_for session_id suffix)
  workload_parts spec helper image codex_chat = codex_pod o session_id spec codex_chat image
  workload_parts spec helper image codex_task = codex_pod o session_id spec codex_task image
  workload_parts spec helper image _ = no_parts

  abbrev pub restored : Bool
  restored = not (is_empty checkpoint_ref)

  abbrev is_codex_chat : WorkloadType → Bool
  is_codex_chat codex_chat = true
  is_codex_chat _ = false

  abbrev fs_group_for : WorkloadType → Option ℕ
  fs_group_for shell = some 1000
  fs_group_for _ = none

  abbrev session_container : WorkloadType → Text → WorkloadParts → SlotParts → Container
  session_container workload image parts slot = record {
    name = codes "session";
    image = image;
    pull_policy = pull_policy_for_image image;
    ports = (codes "agent", workload_agent_port) ∷ [];
    env =
        plain_env (codes "DATA_PLANE_WORKLOAD") (workload_name workload)
        ∷ (parts.env
            ++ slot.env
            ++ given restored (plain_env (codes "DATA_PLANE_RESTORE_MODE") (codes "1") ∷ []));
    volume_mounts = parts.volume_mounts ++ slot.volume_mounts;
    readiness_probe = http_get (codes "/healthz") workload_agent_port;
    security_context = parts.security_context;
  }

  unfoldable pub session_pod : WorkloadType → Text → WorkloadParts → SlotParts → Pod
  session_pod workload image parts slot = record {
    name = if restored then restore_pod_name session_id suffix else pod_name session_id;
    namespace = o.namespace;
    annotations =
        given restored ((codes "session-platform.dev/restore-archive", checkpoint_ref) ∷ []);
    labels =
        (codes "session-id", session_id)
        ∷ (codes "session-platform.dev/workload-type", workload_name workload)
        ∷ (codes "session-platform.dev/pod-role", codes "workload")
        ∷ (codes "app.kubernetes.io/managed-by", codes "control-plane")
        ∷ [];
    service_account_name = codes "data-plane";
    automount_service_account_token = not (is_codex_chat workload);
    fs_group = fs_group_for workload;
    containers = session_container workload image parts slot ∷ parts.sidecars;
    volumes = parts.volumes ++ slot.volumes;
  }

  -- A pod that restores has a name of its own, which needs the suffix.
  abbrev named_pod : WorkloadType → Text → WorkloadParts → SlotParts → Result Error Pod
  named_pod workload image parts slot =
      if is_empty checkpoint_ref
      then ok (session_pod workload image parts slot)
      else if is_empty suffix
      then err (failed 23)
      else ok (session_pod workload image parts slot)

  abbrev pub normalized : WorkloadType → WorkloadSpec → Result Error WorkloadSpec
  normalized workload spec = and_then (normalize_model workload spec.model) λ model.
      and_then (normalize_plugins workload spec.plugins) λ plugins.
        and_then (normalize_reasoning_effort workload spec.reasoning_effort)
          λ effort. ok record spec { model = model; plugins = plugins; reasoning_effort = effort }

  unfoldable pub build_typed : WorkloadSpec → HelperEndpoints → WorkloadType → Result Error Pod
  build_typed spec helper workload = and_then (normalized workload spec) λ spec.
      and_then (image_for o workload) λ image.
        and_then (attach_auth_slot o (auth_pool_for workload o.claude_auth_mode) spec.auth_slot)
          (named_pod workload image (workload_parts spec helper image workload))

  unfoldable pub build_pod : WorkloadSpec → HelperEndpoints → Result Error Pod
  build_pod spec helper = and_then (normalize_workload_type spec.type) (build_typed spec helper)
