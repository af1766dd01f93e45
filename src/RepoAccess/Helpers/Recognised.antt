-- ===== src/RepoAccess/Helpers/Recognised.antt =====
-- control-plane/cmd/control-plane/repo_access.go with control-plane/internal/helperauth/helperauth.go and
-- control-plane/internal/adapter/k8s/{client_orchestrator,repo_access}.go: the pods of a session and who they are taken for.
use session_platform.Prelude.{
  ◌≡◌, refl, ◌∙◌, true, false, Option, none, some, List, [], ◌∷◌, ◌++◌, Text, codes, text_eq,
  text_eq_refl, is_empty, lookup, arith, ok, err, if◌then◌else◌,
}
use session_platform.Session.Models.{trim_space}
use session_platform.Session.Types.{WorkloadType}
use session_platform.Tenancy.Resolver.{cut_prefix, bearer_prefix, service_account_prefix}
use session_platform.Provisioning.{
  ClientOrchestrator, Pod, Volume, VolumeSource, projected_token, empty_dir, claim,
}
use session_platform.Provisioning.Names.{helper_pod_name_for, pod_name}
use session_platform.Provisioning.Parts.{SlotParts, shared_volume, shared_volume_enabled}
use session_platform.Provisioning.Workloads.{WorkloadParts}
use session_platform.Provisioning.Helpers.{
  helper_pod, repo_access_enabled, add_repo_access, add_drop,
}
use session_platform.Provisioning.Build.{session_pod}
use session_platform.RepoAccess.Helpers.{
  Refusal, Status, BoundPod, Verifier, HelperApi, pod_name_extra, pod_uid_extra, bound_pod,
  session_label_of, presented, session_of_pod, session_id,
}

abbrev pub platform_verifier : Text → Verifier
platform_verifier namespace = record {
  namespace = namespace;
  service_account = codes "session-mcp";
  audience = codes "session-platform";
  session_label = codes "session-id";
  role_label = codes "session-platform.dev/pod-role";
  helper_role = codes "helper";
}

-- A pod of the cluster that keeps the labels it was made with.
abbrev pub stands : Text → Pod → BoundPod
stands uid pod = record { uid = uid; labels = pod.labels }

abbrev audience_of : VolumeSource → Option Text
audience_of (projected_token audience path expiration) = some audience
audience_of empty_dir = none
audience_of (claim name) = none

-- For whom the token in the volume of this name is minted.
unfoldable pub token_audience : Text → List Volume → Option Text
token_audience name [] = none
token_audience name (v ∷ vs) =
    let rest = token_audience name vs in if text_eq v.name name then audience_of v.source else rest

-- What the API server answers on a token that it minted for the service account of a pod.
abbrev pub status_of : (audience uid : Text) → Pod → Status
status_of audience uid pod = record {
  authenticated = true;
  audiences = audience ∷ [];
  username = service_account_prefix ++ pod.namespace ++ codes ":" ++ pod.service_account_name;
  extra = (pod_name_extra, pod.name ∷ []) ∷ (pod_uid_extra, uid ∷ []) ∷ [];
}

text_eq-append : (a s t : Text) → text_eq (a ++ s) (a ++ t) ≡ text_eq s t
unfolding text_eq
text_eq-append [] s t = refl
text_eq-append (c ∷ a) s t = ground (arith, text_eq-append a s t)

unlike : text_eq (codes "data-plane") (codes "session-mcp") ≡ false
unfolding text_eq
unlike = refl

other_account :
    (namespace : Text)
    → text_eq
        (service_account_prefix ++ namespace ++ codes ":" ++ codes "data-plane")
        (service_account_prefix ++ namespace ++ codes ":" ++ codes "session-mcp")
      ≡ false
other_account namespace =
    text_eq-append (service_account_prefix ++ namespace ++ codes ":") (codes "data-plane")
      (codes "session-mcp")
    ∙ unlike

bound_pod-other :
    (v : Verifier) (status : Status)
    → text_eq status.username
        (service_account_prefix ++ v.namespace ++ codes ":" ++ v.service_account)
      ≡ false
    → bound_pod v status ≡ err Refusal.unauthenticated
unfolding bound_pod
bound_pod-other v status h = ground (arith, h)

module _ (o : ClientOrchestrator) (session suffix image uid : Text) (workload : WorkloadType)
    (plugins : Option (List Text)) where
  abbrev helper : Pod
  helper = helper_pod o session suffix workload plugins image

  helper-audience :
      repo_access_enabled o ≡ true
      → token_audience (codes "repo-access-token") helper.volumes ≡ some (codes "session-platform")
  unfolding token_audience helper_pod add_repo_access add_drop shared_volume shared_volume_enabled
      text_eq
  helper-audience enabled = ground (arith, enabled)

  helper-bound :
      (audience : Text)
      → is_empty uid ≡ false
      → audience ≡ codes "session-platform"
      → bound_pod (platform_verifier o.namespace) (status_of audience uid helper)
        ≡ ok (helper.name, uid)
  unfolding bound_pod helper_pod helper_pod_name_for pod_name lookup text_eq
  helper-bound audience named same = ground (
    arith,
    named,
    same,
    text_eq_refl audience,
    text_eq_refl (service_account_prefix ++ o.namespace ++ codes ":" ++ codes "session-mcp"),
  )

  helper-labelled :
      is_empty session ≡ false
      → session_label_of (platform_verifier o.namespace) uid (stands uid helper) ≡ ok session
  unfolding session_label_of helper_pod lookup text_eq
  helper-labelled named = ground (arith, named, text_eq_refl uid)

  workload-unbound :
      (audience checkpoint_ref : Text) (parts : WorkloadParts) (slot : SlotParts)
      → bound_pod (platform_verifier o.namespace) (
          status_of audience uid
            (session_pod o session checkpoint_ref suffix workload image parts slot))
        ≡ err Refusal.unauthenticated
  unfolding session_pod
  workload-unbound audience checkpoint_ref parts slot =
      bound_pod-other (platform_verifier o.namespace)
        (status_of audience uid
          (session_pod o session checkpoint_ref suffix workload image parts slot))
        (other_account o.namespace)

module _ {W : Type 0} (k8s : HelperApi W) (v : Verifier) where
  session_id-answers :
      (token name uid id : Text) (status : Status) (pod : BoundPod) (w w1 w2 : W)
      → is_empty (trim_space token) ≡ false
      → k8s.review_token token (v.audience ∷ []) w ≡ (ok status, w1)
      → bound_pod v status ≡ ok (name, uid)
      → k8s.get_pod v.namespace name w1 ≡ (ok pod, w2)
      → session_label_of v uid pod ≡ ok id
      → session_id k8s v (bearer_prefix ++ token) w ≡ (ok id, w2)
  unfolding session_id presented session_of_pod cut_prefix
  session_id-answers token name uid id status pod w w1 w2 some_token r b g l =
      ground (arith, some_token, r, b, g, l)

-- The helper of a session with repository access is recognised. Take a token that the API server mints for the pod's
-- service account and for the audience of its repo-access-token volume, bound to the pod under its name and its
-- UID. While that pod stands with the labels it was made with, the control plane answers this token with the
-- session's identifier, which must not be empty. A token of the session's workload pod, for whatever audience, is refused.
pub session_id-helper_pod :
    {W : Type 0} (k8s : HelperApi W) (o : ClientOrchestrator)
    (session suffix checkpoint_ref image uid token audience audience' : Text)
    (workload : WorkloadType) (plugins : Option (List Text)) (parts : WorkloadParts)
    (slot : SlotParts) (w w1 w2 : W)
    → let pod = helper_pod o session suffix workload plugins image in
      let v = platform_verifier o.namespace in
      repo_access_enabled o ≡ true
      → is_empty session ≡ false
      → is_empty uid ≡ false
      → is_empty (trim_space token) ≡ false
      → token_audience (codes "repo-access-token") pod.volumes ≡ some audience
      → k8s.review_token token (v.audience ∷ []) w ≡ (ok (status_of audience uid pod), w1)
      → k8s.get_pod pod.namespace pod.name w1 ≡ (ok (stands uid pod), w2)
      → (session_id k8s v (bearer_prefix ++ token) w ≡ (ok session, w2))
        × (bound_pod v (
              status_of audience' uid
                (session_pod o session checkpoint_ref suffix workload image parts slot))
            ≡ err Refusal.unauthenticated)
unfolding helper_pod
session_id-helper_pod k8s o session suffix checkpoint_ref image uid token audience audience'
      workload plugins parts slot w w1 w2 enabled named bound some_token minted reviewed found =
    let same : audience ≡ codes "session-platform" =
      ground (arith, minted, helper-audience o session suffix image uid workload plugins enabled) in
    (
      session_id-answers k8s (platform_verifier o.namespace) token
          (helper o session suffix image uid workload plugins).name uid session
          (status_of audience uid (helper o session suffix image uid workload plugins))
          (stands uid (helper o session suffix image uid workload plugins)) w w1 w2 some_token
          reviewed (helper-bound o session suffix image uid workload plugins audience bound same)
          found (helper-labelled o session suffix image uid workload plugins named),
      workload-unbound o session suffix image uid workload plugins audience' checkpoint_ref parts
          slot,
    )
