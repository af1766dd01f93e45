-- ===== src/Provisioning/Cleanup.antt =====
-- control-plane/internal/adapter/k8s/client_orchestrator.go: a start that fails undoes what it made, and one
-- that succeeds hands over what it made.
use session_platform.Prelude.{
  ℕ, refl, Option, List, [], ◌∷◌, map, Text, is_empty, pure, Result, ok, err,
}
use session_platform.Prelude.Runs.{Runs, Runs-bind, Runs-handle, Runs-if, Runs-from}
use session_platform.Session.Errors.{Error, failed}
use session_platform.Session.Types.{WorkloadType, has_approval_gate, normalize_workload_type}
use session_platform.Session.Plugins.{normalize_plugins}
use session_platform.Pods.{PodRef, SessionPods, WorkloadSpec}
use session_platform.Provisioning.{Pod, ClientOrchestrator, HelperEndpoints}
use session_platform.Provisioning.Build.{build_pod}
use session_platform.Provisioning.Helpers.{helper_pod_spec}
use session_platform.Provisioning.Boundary.{BoundaryApi}
use session_platform.Provisioning.Start.{
  PodApi, World, target, stop, cleanup, give_up, bound, start_helper, start_workload, suffix_for,
  start_set,
}
use session_platform.Provisioning.Undone.{
  Made, Undone, Pending, After, Made-Pending, Pending-Undone, on_cluster-Made, lift-Made,
  delete-Pending, give_up-Runs,
}
use session_platform.Provisioning.Provisioned.{aim, Provided, undo_one, provision-Provided}

-- What `start_set` leaves: the pods of the set and no deletion, or one deletion for
-- each pod that was made.
pub Left :
    {W : Type 0} (target_of : PodRef → Text × Text) (w0 : World W)
    → Result Error SessionPods × World W
    → Type 0
Left target_of w0 (ok set, w) = Made w0 (target_of set.workload ∷ map target_of set.auxiliary) w
Left target_of w0 (err e, w) = Undone w0 w

AtMostOne : List PodRef → Type 0
AtMostOne [] = Unit
AtMostOne (ref ∷ []) = Unit
AtMostOne (ref ∷ next ∷ refs) = ⊥

module _ {W : Type 0} (k8s : PodApi W) (boundary : BoundaryApi W) (o : ClientOrchestrator)
    (w0 : World W) where
  Helped : Result Error (List PodRef × HelperEndpoints) × World W → Type 0
  Helped (ok (refs, helper), w) = AtMostOne refs × Made w0 (map (aim k8s boundary o w0) refs) w
  Helped (err e, w) = Undone w0 w

  -- A set has one pod beside its workload at most, so the first error of `stop` leaves none out.
  undo_all :
      (refs : List PodRef) (e : Error) {A : Type 0}
      → AtMostOne refs
      → Runs
          (Pending w0 (map (aim k8s boundary o w0) refs))
          (After {E = Error} {A = A} (Undone w0))
          (give_up k8s boundary o refs e)
  unfolding aim cleanup stop AtMostOne
  undo_all [] e few = record { at = λ w h. Pending-Undone k8s boundary o w0 w h }
  undo_all (ref ∷ []) e few =
      give_up-Runs k8s boundary o (Pending w0 ((aim k8s boundary o w0) ref ∷ [])) (Undone w0) ref e
        (delete-Pending k8s boundary o w0 ((aim k8s boundary o w0) ref))
  undo_all (ref ∷ next ∷ refs) e few = absurd few

  start_helper-Helped :
      (ticks : ℕ) (session_id suffix : Text) (workload : WorkloadType)
      (plugins : Option (List Text))
      → Runs
          (Made w0 [])
          Helped
          (start_helper k8s boundary o ticks session_id suffix workload plugins)
  unfolding start_helper Helped Provided aim cleanup AtMostOne
  start_helper-Helped ticks session_id suffix workload plugins =
      Runs-if (has_approval_gate workload)
        (λ t.
          Runs-bind (After {E = Error} {A = Pod} (Made w0 []))
            (lift-Made k8s boundary o w0 (helper_pod_spec o session_id suffix workload plugins))
            (λ e v h. nothing v h)
            λ spec.
              Runs-bind (Provided k8s boundary o w0 [])
                (provision-Provided k8s boundary o w0 ticks spec (bound k8s boundary o session_id))
                (λ e v h. Pending-Undone k8s boundary o w0 v h)
                λ ref.
                  Runs-if (is_empty ref.ip)
                    (λ t. record {
                      at = λ w h. Pending-Undone k8s boundary o w0 _ (
                          (undo_one k8s boundary o w0 {A = List PodRef × HelperEndpoints} ref
                              (failed 25)).at
                            w h);
                    })
                    λ t. record { at = λ w h. (tt, h) })
        λ t. record { at = λ w h. (tt, h) }
    where
      nothing : (v : World W) → Made w0 [] v → Undone w0 v
      nothing v h = Pending-Undone k8s boundary o w0 v (Made-Pending k8s boundary o w0 v h)

  start_workload-Left :
      (ticks : ℕ) (session_id checkpoint_ref suffix : Text) (spec : WorkloadSpec)
      (refs : List PodRef) (helper : HelperEndpoints)
      → AtMostOne refs
      → Runs
          (Made w0 (map (aim k8s boundary o w0) refs))
          (Left (aim k8s boundary o w0) w0)
          (start_workload k8s boundary o ticks session_id checkpoint_ref suffix spec (refs, helper))
  unfolding start_workload Left Provided cleanup
  start_workload-Left ticks session_id checkpoint_ref suffix spec refs helper few =
      Runs-handle (After {E = Error} {A = Pod} (Made w0 (map (aim k8s boundary o w0) refs)))
        (lift-Made k8s boundary o w0 (build_pod o session_id checkpoint_ref suffix spec helper))
        (λ e. Runs-from (faulted e) λ v h. Made-Pending k8s boundary o w0 v h)
        λ pod.
          Runs-handle (Provided k8s boundary o w0 (map (aim k8s boundary o w0) refs))
            (provision-Provided k8s boundary o w0 ticks pod (λ created. pure tt)) (λ e. faulted e)
            λ ref. record { at = λ w h. h }
    where
      faulted :
          (e : Error)
          → Runs
              (Pending w0 (map (aim k8s boundary o w0) refs))
              (Left (aim k8s boundary o w0) w0)
              (give_up k8s boundary o refs e)
      faulted e = record { at = (undo_all refs e {A = SessionPods} few).at }

  starts :
      (ticks : ℕ) (session_id checkpoint_ref : Text) (spec : WorkloadSpec)
      → Runs
          (Made w0 [])
          (Left (aim k8s boundary o w0) w0)
          (start_set k8s boundary o ticks session_id checkpoint_ref spec)
  unfolding start_set Left Helped
  starts ticks session_id checkpoint_ref spec =
      Runs-bind (After (Made w0 []))
        (lift-Made k8s boundary o w0 (normalize_workload_type spec.type)) (λ e v h. nothing v h)
        λ workload.
          Runs-bind (After (Made w0 []))
            (lift-Made k8s boundary o w0 (normalize_plugins workload spec.plugins))
            (λ e v h. nothing v h)
            λ plugins.
              Runs-bind (After (Made w0 [])) suffixed (λ e v h. nothing v h)
                λ suffix.
                  Runs-bind Helped (start_helper-Helped ticks session_id suffix workload plugins)
                    (λ e v h. h)
                    λ helped. record {
                      at = λ w h.
                          (start_workload-Left ticks session_id checkpoint_ref suffix
                              (record spec { plugins = plugins }) helped.0 helped.1 h.0).at
                            w h.1;
                    }
    where
      nothing : (v : World W) → Made w0 [] v → Undone w0 v
      nothing v h = Pending-Undone k8s boundary o w0 v (Made-Pending k8s boundary o w0 v h)

      suffixed : Runs (Made w0 []) (After (Made w0 [])) (suffix_for k8s boundary o checkpoint_ref)
      suffixed =
          Runs-if (is_empty checkpoint_ref) (λ t. record { at = λ w h. h })
            λ t. on_cluster-Made k8s boundary o w0 k8s.restore_suffix

-- Whatever the API server answers: a start or a restore that returns a set has made the pods of that set
-- and no others and asked for no deletion, and one that fails has asked for exactly one deletion of each
-- pod that it made.
pub start_set-Left :
    {W : Type 0} (k8s : PodApi W) (boundary : BoundaryApi W) (o : ClientOrchestrator) (ticks : ℕ)
    (session_id checkpoint_ref : Text) (spec : WorkloadSpec) (w : World W)
    → Left
        (target k8s boundary o)
        w
        (start_set k8s boundary o ticks session_id checkpoint_ref spec w)
unfolding aim
start_set-Left k8s boundary o ticks session_id checkpoint_ref spec w =
    (starts k8s boundary o w ticks session_id checkpoint_ref spec).at w
      (record { made = refl; asked = refl })
