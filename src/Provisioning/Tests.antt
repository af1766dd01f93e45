-- ===== src/Provisioning/Tests.antt =====
-- Runs of the orchestrator on small clusters, and instances of the theorems.
use mathlib.Core.List.{Perm}
use session_platform.Prelude.{
  ◌++◌, ℕ, suc, ◌≡◌, refl, true, Option, none, some, [], ◌∷◌, Text, codes, Result, ok, err, ◌==◌,
  text_eq, if◌then◌else◌,
}
use session_platform.Session.Errors.{Error, refused}
use session_platform.Session.Types.{
  WorkloadType, claude_code, approval_gated, normalize_workload_type, has_approval_gate,
}
use session_platform.Session.Models.{normalize_model}
use session_platform.Session.Plugins.{normalize_plugins}
use session_platform.Session.Catalog.{normalize_reasoning_effort}
use session_platform.Pods.{SessionPods, WorkloadSpec}
use session_platform.Provisioning.{
  Pod, pull_always, pull_if_not_present, ClientOrchestrator, gateway_auth, no_helper,
}
use session_platform.Provisioning.Names.{
  pull_policy_for_image, after_last, image_for, helper_pod_name_for, pod_name,
}
use session_platform.Provisioning.Build.{build_pod, build_typed, session_pod, workload_parts}
use session_platform.Provisioning.Parts.{
  no_slot, attach_auth_slot, auth_pool_for, shared_volume_enabled,
}
use session_platform.Provisioning.Secrets.{container_secrets}
use session_platform.Provisioning.Secrets.Parts.{workload_secrets}
use session_platform.Provisioning.Secrets.Workloads.{build_pod-secrets}
use session_platform.Provisioning.Helpers.{helper_pod, helper_pod_spec}
use session_platform.Provisioning.Secrets.Helpers.{helper_secrets, helper_pod_spec-secrets}
use session_platform.Provisioning.Options.{
  new_client_orchestrator, with_image, with_claude_credentials_secret, with_agent_port,
}
use session_platform.Provisioning.Configured.{IsConfigured, new_client_orchestrator-IsConfigured}
use session_platform.Provisioning.Boundary.{
  Created, BoundaryApi, apply_shared_volume_claim, apply_session_network_policies,
  session_network_policies,
}
use session_platform.Provisioning.Start.{
  running, PodApi, World, target, start_set, start_helper, provision, create, wait_ready, pod_ready,
  start_workload, cleanup, stop, stop_one,
}
use session_platform.Provisioning.Listening.{
  admitted, hidden, served, session_network_policies-served,
}
use session_platform.Provisioning.Cleanup.{Left, start_set-Left}

pull_policies :
    (pull_policy_for_image (codes "registry:5000/agent") ≡ pull_always)
    × (pull_policy_for_image (codes "registry:5000/agent:v1") ≡ pull_if_not_present)
    × (pull_policy_for_image (codes "agent@sha256:0") ≡ pull_if_not_present)
unfolding pull_policy_for_image after_last text_eq
pull_policies = (refl, refl, refl)

abbrev sample_images : WorkloadType → Option Text
sample_images approval_gated = some (codes "agent:v1")
sample_images claude_code = some (codes "agent:v1")
sample_images _ = none

abbrev sample : ClientOrchestrator
sample = record {
  namespace = codes "ns";
  image = codes "shell";
  claude_credentials_secret = codes "claude";
  claude_config_config_map = codes "config";
  approval_gateway_url = codes "http://gateway";
  repo_access_url = [];
  drop_url = [];
  mini_max_credentials_secret = codes "minimax";
  mini_max_config_config_map = codes "minimax-config";
  codex_chat_profile = record {
    credentials_secret = codes "codex";
    config_config_map = codes "codex";
    plugins = [];
  };
  codex_task = record {
    credentials_secret = codes "task";
    config_config_map = codes "task";
    plugins = [];
  };
  claude_auth_mode = gateway_auth;
  shared_volume_storage_class = [];
  shared_volume_size = codes "1Gi";
  workload_images = sample_images;
  shell = [];
  agent_port = 8090;
}

abbrev spec_of : WorkloadType → WorkloadSpec
spec_of workload = record {
  type = workload;
  model = [];
  plugins = none;
  reasoning_effort = [];
  auth_slot = none;
}

-- Refuses the pod with the number `refused_at`, counting from 0; every other becomes ready.
abbrev cluster : ℕ → PodApi ℕ
cluster refused_at = record {
  create_pod = λ pod n. (
    if n == refused_at
        then err (refused 1)
        else ok record { name = pod.name; uid = pod.name; labels = pod.labels },
    suc n,
  );
  get_pod = λ ns name n.
      (ok record { phase = running; conditions = (true, true) ∷ []; pod_ip = codes "10.0.0.1" }, n);
  delete_pod = λ ns name n. (ok tt, n);
  restore_suffix = λ n. (ok (codes "ab"), n);
}

abbrev boundary : BoundaryApi ℕ
boundary = record {
  create_network_policy = λ policy n. (ok tt, n);
  create_claim = λ claim n. (ok tt, n);
}

abbrev before : World ℕ
before = record { cluster = 0; made = []; asked = [] }

abbrev started : ℕ → Result Error SessionPods × World ℕ
started refused_at =
    start_set (cluster refused_at) boundary sample 3 (codes "s") [] (spec_of approval_gated) before

start_set-Left_example : Left (target (cluster 1) boundary sample) before (started 1)
start_set-Left_example =
    start_set-Left (cluster 1) boundary sample 3 (codes "s") [] (spec_of approval_gated) before

abbrev typical : WorkloadSpec
typical = record {
  type = claude_code;
  model = codes "platform-default";
  plugins = none;
  reasoning_effort = [];
  auth_slot = none;
}

abbrev typical_pod : Pod
typical_pod =
    session_pod sample (codes "s") [] [] claude_code (codes "agent:v1")
      (workload_parts sample (codes "s") [] [] typical no_helper (codes "agent:v1") claude_code)
      no_slot

typical_type : normalize_workload_type claude_code ≡ ok claude_code
unfolding normalize_workload_type
typical_type = refl

typical_built : build_pod sample (codes "s") [] [] typical no_helper ≡ ok typical_pod
unfolding build_pod build_typed normalize_workload_type normalize_model normalize_plugins
    normalize_reasoning_effort image_for attach_auth_slot auth_pool_for
typical_built = refl

build_pod-secrets_example :
    container_secrets typical_pod.containers ≡ workload_secrets sample claude_code
build_pod-secrets_example =
    build_pod-secrets sample (codes "s") [] [] typical no_helper typical_type typical_built

abbrev typical_helper : Pod
typical_helper = helper_pod sample (codes "s") [] approval_gated none (codes "agent:v1")

helper_built : helper_pod_spec sample (codes "s") [] approval_gated none ≡ ok typical_helper
unfolding helper_pod_spec image_for
helper_built = refl

helper_pod_spec-secrets_example :
    container_secrets typical_helper.containers ≡ helper_secrets sample approval_gated
helper_pod_spec-secrets_example =
    helper_pod_spec-secrets sample (codes "s") [] approval_gated none helper_built

-- The helper pod is made, the workload pod is refused: the helper's deletion was asked for.
helper_undone : (started 1).1.asked ≡ (codes "ns", codes "sess-s-helper") ∷ []
unfolding start_set normalize_workload_type normalize_plugins start_helper has_approval_gate
    helper_pod_spec image_for provision create apply_shared_volume_claim shared_volume_enabled
    apply_session_network_policies session_network_policies wait_ready pod_ready start_workload
    build_pod build_typed normalize_model normalize_reasoning_effort attach_auth_slot auth_pool_for
    cleanup stop stop_one helper_pod helper_pod_name_for pod_name
helper_undone = refl

new_client_orchestrator-IsConfigured_example : IsConfigured (
    new_client_orchestrator
      (codes "ns")
      (with_image [] ∷ with_claude_credentials_secret (codes "  ") ∷ with_agent_port 0 ∷ []))
new_client_orchestrator-IsConfigured_example =
    new_client_orchestrator-IsConfigured (codes "ns")
      (with_image [] ∷ with_claude_credentials_secret (codes "  ") ∷ with_agent_port 0 ∷ [])

abbrev typical_owner : Created
typical_owner = record {
  name = typical_helper.name;
  uid = codes "1";
  labels = typical_helper.labels;
}

session_network_policies-served_example :
    Perm
      (admitted sample.namespace (codes "s") typical_owner ++ hidden sample approval_gated)
      (served typical_helper)
unfolding has_approval_gate
session_network_policies-served_example =
    session_network_policies-served sample (codes "s") [] (codes "agent:v1") none approval_gated
      typical_owner refl refl
