-- ===== src/Provisioning/Start.antt =====
-- control-plane/internal/adapter/k8s/client_orchestrator.go: starting, restoring and stopping a session's
-- pods. The world notes beside the cluster which pods were made and which deletions were asked for.
use session_platform.Prelude.{
  ℕ, zero, suc, Bool, true, false, Option, List, [], ◌∷◌, Text, is_empty, Action, pure, raise, lift,
  ignore, ◌>>=◌, ◌>>◌, handle, if◌then◌else◌, Result, ok, err,
}
use session_platform.Kubernetes.{is_not_found}
use session_platform.Session.Errors.{Error, ApiError, api, failed, wrapped}
use session_platform.Session.Types.{WorkloadType, normalize_workload_type, has_approval_gate}
use session_platform.Session.Plugins.{normalize_plugins}
use session_platform.Pods.{PodRef, SessionPods, WorkloadSpec}
use session_platform.Provisioning.{Pod, ClientOrchestrator, HelperEndpoints, no_helper}
use session_platform.Provisioning.Names.{endpoints_for}
use session_platform.Provisioning.Build.{build_pod}
use session_platform.Provisioning.Helpers.{helper_pod_spec}
use session_platform.Provisioning.Boundary.{
  Created, BoundaryApi, apply_session_network_policies, apply_shared_volume_claim,
}

pub data PodPhase : Type 0 where
  running other_phase : PodPhase

-- The conditions with whether they are of type Ready and whether their status is True.
pub record PodState : Type 0 where
  pub phase : PodPhase
  pub conditions : List (Bool × Bool)
  pub pod_ip : Text

pub record PodApi (W : Type 0) : Type 0 where
  pub create_pod : Pod → Action W ApiError Created
  pub get_pod : (namespace name : Text) → Action W ApiError PodState
  pub delete_pod : (namespace name : Text) → Action W ApiError Unit
  pub restore_suffix : Action W Error Text

pub record World (W : Type 0) : Type 0 where
  pub cluster : W
  pub made : List (Text × Text)
  pub asked : List (Text × Text)

abbrev ready_condition : List (Bool × Bool) → Bool
ready_condition [] = false
ready_condition ((ready, status) ∷ cs) =
    let rest = ready_condition cs in if ready then status else rest

abbrev is_running : PodPhase → Bool
is_running running = true
is_running other_phase = false

unfoldable pub pod_ready : PodState → Bool
pod_ready pod = if is_running pod.phase then ready_condition pod.conditions else false

module _ {W : Type 0} (k8s : PodApi W) (boundary : BoundaryApi W) (o : ClientOrchestrator) where
  abbrev pub on_cluster : {E A : Type 0} → Action W E A → Action (World W) E A
  on_cluster m w = let (r, c) = m w.cluster in (r, record w { cluster = c })

  abbrev pub noted : Result ApiError Created → Action (World W) Error Created
  noted (ok created) w = (ok created, record w { made = (o.namespace, created.name) ∷ w.made })
  noted (err e) w = (err (wrapped (api e)), w)

  unfoldable pub create : Pod → Action (World W) Error Created
  create spec w = let (r, c) = k8s.create_pod spec w.cluster in noted r (record w { cluster = c })

  abbrev pub target : PodRef → Text × Text
  target ref = (if is_empty ref.namespace then o.namespace else ref.namespace, ref.name)

  abbrev pub delete : Text × Text → Action (World W) ApiError Unit
  delete p w =
      let (r, c) = k8s.delete_pod p.0 p.1 w.cluster in
      (r, record w { cluster = c; asked = p ∷ w.asked })

  unfoldable pub stop_one : PodRef → Action (World W) Error Unit
  stop_one ref =
      handle (delete (target ref))
        (λ e. if is_not_found e then pure tt else raise (wrapped (api e))) λ done. pure tt

  unfoldable pub stop : List PodRef → Action (World W) Error Unit
  stop [] = pure tt
  stop (ref ∷ refs) = stop_one ref >> stop refs

  -- Best effort: an error is dropped.
  unfoldable pub cleanup : List PodRef → Action (World W) Error Unit
  cleanup refs = ignore (stop refs)

  abbrev pub give_up : {A : Type 0} → List PodRef → Error → Action (World W) Error A
  give_up refs e = cleanup refs >> raise e

  abbrev pub poll : Text → Action (World W) Error PodState → Action (World W) Error PodState
  poll name again =
      handle (on_cluster (k8s.get_pod o.namespace name)) (λ e. again)
        λ pod. if pod_ready pod then pure pod else again

  -- As many reads after the first as ticks come before the timeout.
  unfoldable pub wait_ready : (ticks : ℕ) → Text → Action (World W) Error PodState
  wait_ready zero name = poll name (raise (failed 24))
  wait_ready (suc ticks) name = poll name (wait_ready ticks name)

  abbrev pub ref_to : Created → PodRef
  ref_to created = record { name = created.name; namespace = o.namespace; ip = [] }

  unfoldable pub provision :
      (ticks : ℕ) → Pod → (Created → Action W Error Unit) → Action (World W) Error PodRef
  provision ticks spec after_create = create spec >>= λ created.
      handle (on_cluster (after_create created)) (give_up (ref_to created ∷ [])) λ done.
        handle (wait_ready ticks created.name) (give_up (ref_to created ∷ []))
          λ pod. pure record (ref_to created) { ip = pod.pod_ip }

  abbrev pub bound : Text → Created → Action W Error Unit
  bound session_id created =
      apply_shared_volume_claim boundary o session_id created
      >> apply_session_network_policies boundary o session_id created

  abbrev pub with_address : PodRef → Action (World W) Error (List PodRef × HelperEndpoints)
  with_address ref =
      if is_empty ref.ip
      then give_up (ref ∷ []) (failed 25)
      else pure (ref ∷ [], endpoints_for ref.ip)

  unfoldable pub start_helper :
      (ticks : ℕ)
      → Text
      → Text
      → WorkloadType
      → Option (List Text)
      → Action (World W) Error (List PodRef × HelperEndpoints)
  start_helper ticks session_id suffix workload plugins =
      if has_approval_gate workload
      then lift (helper_pod_spec o session_id suffix workload plugins)
        >>= (λ spec. provision ticks spec (bound session_id) >>= with_address)
      else pure ([], no_helper)

  unfoldable pub start_workload :
      (ticks : ℕ)
      → (session_id checkpoint_ref suffix : Text) → WorkloadSpec
      → List PodRef × HelperEndpoints
      → Action (World W) Error SessionPods
  start_workload ticks session_id checkpoint_ref suffix spec (auxiliary, helper) =
      handle (lift (build_pod o session_id checkpoint_ref suffix spec helper)) (give_up auxiliary)
        λ pod.
          handle (provision ticks pod (λ created. pure tt)) (give_up auxiliary)
            λ ref. pure record { workload = ref; auxiliary = auxiliary }

  abbrev pub suffix_for : Text → Action (World W) Error Text
  suffix_for checkpoint_ref =
      if is_empty checkpoint_ref then pure [] else on_cluster k8s.restore_suffix

  unfoldable pub start_set :
      (ticks : ℕ)
      → (session_id checkpoint_ref : Text) → WorkloadSpec
      → Action (World W) Error SessionPods
  start_set ticks session_id checkpoint_ref spec =
      lift (normalize_workload_type spec.type) >>= λ workload.
      lift (normalize_plugins workload spec.plugins) >>= λ plugins.
      suffix_for checkpoint_ref >>= λ suffix.
      start_helper ticks session_id suffix workload plugins
      >>= start_workload ticks session_id checkpoint_ref suffix (record spec { plugins = plugins })

  unfoldable pub start : (ticks : ℕ) → Text → WorkloadSpec → Action (World W) Error SessionPods
  start ticks session_id spec = start_set ticks session_id [] spec

  unfoldable pub restore_into :
      (ticks : ℕ)
      → (session_id checkpoint_ref : Text) → WorkloadSpec
      → Action (World W) Error SessionPods
  restore_into ticks session_id checkpoint_ref spec = start_set ticks session_id checkpoint_ref spec
