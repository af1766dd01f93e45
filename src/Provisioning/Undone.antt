-- ===== src/Provisioning/Undone.antt =====
-- control-plane/internal/adapter/k8s/client_orchestrator.go: what a start leaves behind, whether it succeeds
-- or fails.
use mathlib.Core.List.{Perm, append_assoc}
use mathlib.Core.List.Perm
use session_platform.Prelude.{
  ◌≡◌, sym, ap, ◌∙◌, List, [], ◌∷◌, ◌++◌, Text, Action, raise, lift, Result,
}
use session_platform.Prelude.Runs.{Runs, Runs-bind, Runs-handle, Runs-if}
use session_platform.Kubernetes.{is_not_found}
use session_platform.Session.Errors.{Error, ApiError}
use session_platform.Pods.{PodRef}
use session_platform.Provisioning.{ClientOrchestrator}
use session_platform.Provisioning.Boundary.{BoundaryApi}
use session_platform.Provisioning.Start.{
  PodApi, World, on_cluster, target, delete, stop_one, stop, cleanup, give_up,
}

-- Since the world `w0`: exactly these pods were made and no deletion was asked for.
pub record Made {W : Type 0} (w0 : World W) (ids : List (Text × Text)) (w : World W) : Type 0 where
  pub made : w.made ≡ ids ++ w0.made
  pub asked : w.asked ≡ w0.asked

-- One deletion was asked for each pod that was made since `w0`.
pub record Undone {W : Type 0} (w0 w : World W) : Type 0 where
  pub new : List (Text × Text)
  pub requests : List (Text × Text)
  pub made : w.made ≡ new ++ w0.made
  pub asked : w.asked ≡ requests ++ w0.asked
  pub matched : Perm new requests

-- All but these.
pub record Pending {W : Type 0} (w0 : World W) (ids : List (Text × Text)) (w : World W)
    : Type 0 where
  pub lost : List (Text × Text)
  pub made : w.made ≡ lost ++ (ids ++ w0.made)
  pub asked : w.asked ≡ lost ++ w0.asked

snoc-Perm : {A : Type 0} (xs : List A) (a : A) → Perm (xs ++ a ∷ []) (a ∷ xs)
snoc-Perm [] a = Perm.refl (a ∷ [])
snoc-Perm (x ∷ xs) a = Perm.trans (Perm.cons x (snoc-Perm xs a)) (Perm.swap a x xs)

-- Of the world that a run leaves, whatever its result.
abbrev pub After : {V E A : Type 0} → (V → Type 0) → Result E A × V → Type 0
After Q r = Q r.1

module _ {W : Type 0} (k8s : PodApi W) (boundary : BoundaryApi W) (o : ClientOrchestrator) where
  module _ (w0 : World W) where
    pub Made-Pending : {ids : List (Text × Text)} (w : World W) → Made w0 ids w → Pending w0 ids w
    Made-Pending w h = record { lost = []; made = h.made; asked = h.asked }

    pub Pending-Undone : (w : World W) → Pending w0 [] w → Undone w0 w
    Pending-Undone w h = record {
      new = h.lost;
      requests = h.lost;
      made = h.made;
      asked = h.asked;
      matched = Perm.refl h.lost;
    }

    pub on_cluster-Made :
        {A : Type 0} {ids : List (Text × Text)} (m : Action W Error A)
        → Runs (Made w0 ids) (After {E = Error} {A = A} (Made w0 ids)) (on_cluster k8s boundary o m)
    on_cluster-Made m = record { at = λ w h. record { made = h.made; asked = h.asked } }

    pub lift-Made :
        {A : Type 0} {ids : List (Text × Text)} (r : Result Error A)
        → Runs (Made w0 ids) (After {E = Error} {A = A} (Made w0 ids)) (lift r)
    lift-Made r = record { at = λ w h. h }

    pub delete-Made :
        (p : Text × Text) {ids : List (Text × Text)}
        → Runs
            (Made w0 (p ∷ ids))
            (After {E = ApiError} {A = Unit} (Pending w0 ids))
            (delete k8s boundary o p)
    delete-Made p = record {
      at = λ w h. record { lost = p ∷ []; made = h.made; asked = ap (λ rest. p ∷ rest) h.asked };
    }

    pub delete-Pending :
        (p : Text × Text)
        → Runs
            (Pending w0 (p ∷ []))
            (After {E = ApiError} {A = Unit} (Undone w0))
            (delete k8s boundary o p)
    delete-Pending p = record {
      at = λ w h. record {
        new = h.lost ++ p ∷ [];
        requests = p ∷ h.lost;
        made = h.made ∙ sym (append_assoc h.lost (p ∷ []) w0.made);
        asked = ap (λ rest. p ∷ rest) h.asked;
        matched = snoc-Perm h.lost p;
      };
    }

  -- Cleaning up one pod does to the notes what its deletion does.
  module _ (P Q : World W → Type 0) where
    stop_one-Runs :
        (ref : PodRef)
        → Runs P
            (After {E = ApiError} {A = Unit} Q)
            (delete k8s boundary o (target k8s boundary o ref))
        → Runs P (After {E = Error} {A = Unit} Q) (stop_one k8s boundary o ref)
    unfolding stop_one
    stop_one-Runs ref km =
        Runs-handle (After {E = ApiError} {A = Unit} Q) km
          (λ e.
            Runs-if (is_not_found e) (λ t. record { at = λ w h. h }) λ t. record { at = λ w h. h })
          λ done. record { at = λ w h. h }

    pub give_up-Runs :
        {A : Type 0} (ref : PodRef) (e : Error)
        → Runs P
            (After {E = ApiError} {A = Unit} Q)
            (delete k8s boundary o (target k8s boundary o ref))
        → Runs P (After {E = Error} {A = A} Q) (give_up k8s boundary o {A = A} (ref ∷ []) e)
    unfolding cleanup stop
    give_up-Runs ref e km =
        Runs-bind {W = World W} (After {E = Error} {A = Unit} Q)
          {m = cleanup k8s boundary o (ref ∷ [])} {f = λ done. raise e} (record { at = stopped.at })
          (λ f v h. h) λ done. record { at = λ w h. h }
      where
        stopped : Runs P (After {E = Error} {A = Unit} Q) (stop k8s boundary o (ref ∷ []))
        stopped =
            Runs-bind (After {E = Error} {A = Unit} Q) (stop_one-Runs ref km) (λ f v h. h)
              λ done. record { at = λ w h. h }
