-- ===== src/RepoAccess/Helpers.antt =====
-- control-plane/internal/helperauth/helperauth.go: which session's helper pod calls. The TokenReview and the pod
-- APIs are parameters; a Go map is an association list.
pub mod Bound
pub mod Recognised
use session_platform.Prelude.{
  Bool, not, ◌&&◌, ◌||◌, any, Option, none, some, List, [], ◌∷◌, ◌++◌, Text, codes, text_eq,
  is_empty, lookup, Result, ok, err, Action, raise, lift, handle, ◌>>=◌, if◌then◌else◌,
}
use session_platform.Session.Errors.{ApiError}
use session_platform.Session.Models.{trim_space}
use session_platform.Slots.Leases.{or_empty}
use session_platform.Tenancy.Resolver.{cut_prefix, bearer_prefix, service_account_prefix}

abbrev pub pod_name_extra : Text
pod_name_extra = codes "authentication.kubernetes.io/pod-name"

abbrev pub pod_uid_extra : Text
pod_uid_extra = codes "authentication.kubernetes.io/pod-uid"

pub data Refusal : Type 0 where
  unauthenticated : Refusal
  review_fault : ApiError → Refusal

pub record Status : Type 0 where
  pub authenticated : Bool
  pub audiences : List Text
  pub username : Text
  pub extra : List (Text × List Text)

pub record BoundPod : Type 0 where
  pub uid : Text
  pub labels : List (Text × Text)

pub record Verifier : Type 0 where
  pub namespace : Text
  pub service_account : Text
  pub audience : Text
  pub session_label : Text
  pub role_label : Text
  pub helper_role : Text

-- `review_token` takes the token and the audiences, `get_pod` the namespace and the name.
pub record HelperApi (W : Type 0) : Type 0 where
  pub review_token : Text → List Text → Action W ApiError Status
  pub get_pod : Text → Text → Action W ApiError BoundPod

abbrev first : Option (List Text) → Text
first none = []
first (some []) = []
first (some (v ∷ vs)) = v

abbrev pub extra_of : Text → Status → Text
extra_of key status = first (lookup key status.extra)

abbrev pub label_of : Text → BoundPod → Text
label_of key pod = or_empty (lookup key pod.labels)

-- The name and the UID of the pod that a proven token is bound to.
unfoldable pub bound_pod : Verifier → Status → Result Refusal (Text × Text)
bound_pod v status =
    let name = extra_of pod_name_extra status in
    let uid = extra_of pod_uid_extra status in
    if not status.authenticated || not (any (text_eq v.audience) status.audiences)
    then err unauthenticated
    else if not (
        text_eq status.username
          (service_account_prefix ++ v.namespace ++ codes ":" ++ v.service_account))
    then err unauthenticated
    else if is_empty name || is_empty uid
    then err unauthenticated
    else ok (name, uid)

unfoldable pub session_label_of : Verifier → Text → BoundPod → Result Refusal Text
session_label_of v uid pod =
    if not (text_eq pod.uid uid) || not (text_eq (label_of v.role_label pod) v.helper_role)
    then err unauthenticated
    else if is_empty (label_of v.session_label pod)
    then err unauthenticated
    else ok (label_of v.session_label pod)

-- The first value of the Authorization header, empty without one.
unfoldable pub presented : Text → Result Refusal Text
presented authorization = elim (cut_prefix bearer_prefix authorization) [
  | none ↦ err unauthenticated
  | some token ↦ if is_empty (trim_space token) then err unauthenticated else ok token
]

module _ {W : Type 0} (k8s : HelperApi W) (v : Verifier) where
  unfoldable pub session_of_pod : Text × Text → Action W Refusal Text
  session_of_pod (name, uid) =
      handle (k8s.get_pod v.namespace name) (λ e. raise unauthenticated)
        λ pod. lift (session_label_of v uid pod)

  abbrev reviewed : Text → Action W Refusal Status
  reviewed token =
      handle (k8s.review_token token (v.audience ∷ [])) (λ e. raise (review_fault e))
        λ status. lift (ok status)

  unfoldable pub session_id : Text → Action W Refusal Text
  session_id authorization = do
    token ← lift (presented authorization)
    status ← reviewed token
    bound ← lift (bound_pod v status)
    session_of_pod bound
