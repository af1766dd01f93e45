-- ===== src/Provisioning/Provisioned.antt =====
-- control-plane/internal/adapter/k8s/client_orchestrator.go: what one pod's creation leaves behind.
use session_platform.Prelude.{
  ℕ, zero, suc, ◌≡◌, refl, ap, ◌∙◌, Bool, true, false, List, [], ◌∷◌, Text, is_empty, Action, raise,
  if◌then◌else◌, Result, ok, err,
}
use session_platform.Prelude.Runs.{Runs, Runs-bind, Runs-handle, Runs-if}
use session_platform.Session.Errors.{Error, ApiError, failed}
use session_platform.Pods.{PodRef}
use session_platform.Provisioning.{Pod, ClientOrchestrator}
use session_platform.Provisioning.Boundary.{Created, BoundaryApi}
use session_platform.Provisioning.Start.{
  PodState, PodApi, World, noted, pod_ready, create, target, cleanup, give_up, poll, wait_ready,
  ref_to, provision,
}
use session_platform.Provisioning.Undone.{
  Made, Pending, After, Made-Pending, on_cluster-Made, delete-Made, give_up-Runs,
}

module _ {W : Type 0} (k8s : PodApi W) (boundary : BoundaryApi W) (o : ClientOrchestrator)
    (w0 : World W) where
  unfoldable pub aim : PodRef → Text × Text
  aim ref = target k8s boundary o ref

  unfoldable pub Provided : List (Text × Text) → Result Error PodRef × World W → Type 0
  Provided ids (ok ref, w) = Made w0 (aim ref ∷ ids) w
  Provided ids (err e, w) = Pending w0 ids w

  CreatedPost : List (Text × Text) → Result Error Created × World W → Type 0
  CreatedPost ids (ok c, w) = Made w0 (aim (ref_to k8s boundary o c) ∷ ids) w
  CreatedPost ids (err e, w) = Made w0 ids w

  aim-ref_to : (c : Created) → (o.namespace, c.name) ≡ aim (ref_to k8s boundary o c)
  unfolding aim
  aim-ref_to c = ap (λ ns. (ns, c.name)) (same (is_empty o.namespace))
    where
      same : (b : Bool) → o.namespace ≡ (if b then o.namespace else o.namespace)
      same true = refl
      same false = refl

  create-Made :
      {ids : List (Text × Text)} (spec : Pod)
      → Runs (Made w0 ids) (CreatedPost ids) (create k8s boundary o spec)
  unfolding create CreatedPost
  create-Made {ids} spec = record {
    at = λ w h.
        note (k8s.create_pod spec w.cluster).0
          (record w { cluster = (k8s.create_pod spec w.cluster).1 })
          (record { made = h.made; asked = h.asked });
  }
    where
      note :
          (r : Result ApiError Created) (w : World W)
          → Made w0 ids w
          → CreatedPost ids (noted k8s boundary o r w)
      note (ok c) w h = record {
        made =
            ap (λ p. p ∷ w.made) (aim-ref_to c)
            ∙ ap (λ rest. aim (ref_to k8s boundary o c) ∷ rest) h.made;
        asked = h.asked;
      }
      note (err e) w h = h

  wait_ready-Made :
      {ids : List (Text × Text)} (ticks : ℕ) (name : Text)
      → Runs (Made w0 ids) (After (Made w0 ids)) (wait_ready k8s boundary o ticks name)
  unfolding wait_ready
  wait_ready-Made {ids} ticks name = waits ticks
    where
      polled :
          (again : Action (World W) Error PodState)
          → Runs (Made w0 ids) (After (Made w0 ids)) again
          → Runs (Made w0 ids) (After (Made w0 ids)) (poll k8s boundary o name again)
      polled again km =
          Runs-handle (After {E = ApiError} {A = PodState} (Made w0 ids))
            (record { at = λ w h. record { made = h.made; asked = h.asked } }) (λ e. km)
            λ pod. Runs-if (pod_ready pod) (λ t. record { at = λ w h. h }) λ t. km

      waits :
          (ticks : ℕ)
          → Runs (Made w0 ids) (After (Made w0 ids)) (wait_ready k8s boundary o ticks name)
      waits zero = polled (raise (failed 24)) (record { at = λ w h. h })
      waits (suc n) = polled (wait_ready k8s boundary o n name) (waits n)

  pub undo_one :
      {ids : List (Text × Text)} {A : Type 0} (ref : PodRef) (e : Error)
      → Runs
          (Made w0 (aim ref ∷ ids))
          (After {E = Error} {A = A} (Pending w0 ids))
          (give_up k8s boundary o (ref ∷ []) e)
  unfolding aim
  undo_one {ids} ref e =
      give_up-Runs k8s boundary o (Made w0 (aim ref ∷ ids)) (Pending w0 ids) ref e
        (delete-Made k8s boundary o w0 (aim ref))

  pub provision-Provided :
      {ids : List (Text × Text)} (ticks : ℕ) (spec : Pod)
      (after_create : Created → Action W Error Unit)
      → Runs (Made w0 ids) (Provided ids) (provision k8s boundary o ticks spec after_create)
  unfolding provision Provided CreatedPost aim cleanup
  provision-Provided {ids} ticks spec after_create =
      Runs-bind (CreatedPost ids) (create-Made spec) (λ e v h. Made-Pending k8s boundary o w0 v h)
        λ c.
          Runs-handle (After (Made w0 (aim (ref_to k8s boundary o c) ∷ ids)))
            (on_cluster-Made k8s boundary o w0 (after_create c))
            (λ e. faulted (ref_to k8s boundary o c) e)
            λ done.
              Runs-handle (After (Made w0 (aim (ref_to k8s boundary o c) ∷ ids)))
                (wait_ready-Made ticks c.name) (λ e. faulted (ref_to k8s boundary o c) e)
                λ pod. record { at = λ w h. h }
    where
      faulted :
          (ref : PodRef) (e : Error)
          → Runs (Made w0 (aim ref ∷ ids)) (Provided ids) (give_up k8s boundary o (ref ∷ []) e)
      faulted ref e = record { at = (undo_one {A = PodRef} ref e).at }
