-- ===== src/RepoAccess/Helpers/Bound.antt =====
-- control-plane/internal/helperauth/helperauth.go with the labels that cmd/control-plane/repo_access.go names: what
-- stands behind an answered session.
use session_platform.Prelude.{
  ◌≡◌, ap, sym, ◌∙◌, true, false, any, some, [], ◌∷◌, ◌++◌, Text, codes, text_eq, text_eq_sound,
  is_empty, arith, ok, run-cases, Result-cases, inl, inr,
}
use session_platform.Tenancy.Resolver.{cut_prefix, bearer_prefix, service_account_prefix}
use session_platform.RepoAccess.Helpers.{
  Status, BoundPod, Verifier, HelperApi, pod_name_extra, pod_uid_extra, extra_of, label_of,
  bound_pod, session_label_of, presented, session_of_pod, session_id,
}

pub record IsBound {W : Type 0} (k8s : HelperApi W) (v : Verifier) (authorization id : Text)
    (w w' : W) : Type 0 where
  pub token : Text
  pub status : Status
  pub pod : BoundPod
  pub between : W
  pub reviewed : k8s.review_token token (v.audience ∷ []) w ≡ (ok status, between)
  pub authenticated : status.authenticated ≡ true
  pub for_audience : any (text_eq v.audience) status.audiences ≡ true
  pub account :
      status.username ≡ service_account_prefix ++ v.namespace ++ codes ":" ++ v.service_account
  pub found : k8s.get_pod v.namespace (extra_of pod_name_extra status) between ≡ (ok pod, w')
  pub same_pod : pod.uid ≡ extra_of pod_uid_extra status
  pub is_helper : label_of v.role_label pod ≡ v.helper_role
  pub labelled : label_of v.session_label pod ≡ id
  pub presents : cut_prefix bearer_prefix authorization ≡ some token
  pub named : is_empty id ≡ false

presented_sound :
    (authorization token : Text)
    → presented authorization ≡ ok token
    → cut_prefix bearer_prefix authorization ≡ some token
unfolding presented
presented_sound authorization token h = grind (arith, h)

bound_pod_sound :
    (v : Verifier) (status : Status) (name uid : Text)
    → bound_pod v status ≡ ok (name, uid)
    → (status.authenticated ≡ true)
      × (any (text_eq v.audience) status.audiences ≡ true)
      × (status.username ≡ service_account_prefix ++ v.namespace ++ codes ":" ++ v.service_account)
      × (name ≡ extra_of pod_name_extra status)
      × (uid ≡ extra_of pod_uid_extra status)
unfolding bound_pod
bound_pod_sound v status name uid h = ground (
  arith,
  h,
  text_eq_sound status.username
      (service_account_prefix ++ v.namespace ++ codes ":" ++ v.service_account),
)

session_label_of_sound :
    (v : Verifier) (uid id : Text) (pod : BoundPod)
    → session_label_of v uid pod ≡ ok id
    → (pod.uid ≡ uid)
      × (label_of v.role_label pod ≡ v.helper_role)
      × (label_of v.session_label pod ≡ id)
      × (is_empty id ≡ false)
unfolding session_label_of
session_label_of_sound v uid id pod h =
    ground
      (arith, h, text_eq_sound pod.uid uid, text_eq_sound (label_of v.role_label pod) v.helper_role)

session_of_pod_sound :
    {W : Type 0} (k8s : HelperApi W) (v : Verifier) (name uid id : Text) (w w' : W)
    → session_of_pod k8s v (name, uid) w ≡ (ok id, w')
    → (pod : BoundPod) × (k8s.get_pod v.namespace name w ≡ (ok pod, w'))
      × (session_label_of v uid pod ≡ ok id)
unfolding session_of_pod
session_of_pod_sound k8s v name uid id w w' h = elim (run-cases (k8s.get_pod v.namespace name) w) [
  | inl (pod, u, e) ↦ (pod, ground (arith, h, e), ground (arith, h, e))
  | inr (c, u, e) ↦ absurd (ground (arith, h, e))
]

-- A session is answered only to a bearer token that a review proved, for this audience and of the helpers'
-- service account, and that is bound to a pod which still stands under its name with the UID that the token was
-- bound to, has the role of a helper and carries this session's label, which is not empty.
pub session_id-IsBound :
    {W : Type 0} (k8s : HelperApi W) (v : Verifier) (authorization id : Text) (w w' : W)
    → session_id k8s v authorization w ≡ (ok id, w')
    → IsBound k8s v authorization id w w'
unfolding session_id
session_id-IsBound k8s v authorization id w w' h = elim (Result-cases (presented authorization)) [
  | inr (c, p) ↦ absurd (ground (arith, h, p))
  | inl (token, p) ↦ elim (run-cases (k8s.review_token token (v.audience ∷ [])) w) [
    | inr (c, u, r) ↦ absurd (ground (arith, h, p, r))
    | inl (status, between, r) ↦ elim (Result-cases (bound_pod v status)) [
      | inr (c, b) ↦ absurd (ground (arith, h, p, r, b))
      | inl ((name, uid), b) ↦
          let (authenticated, for_audience, account, is_name, is_uid) =
            bound_pod_sound v status name uid b in
          let (pod, found, carried) =
            session_of_pod_sound k8s v name uid id between w' (ground (arith, h, p, r, b)) in
          let (same_pod, is_helper, labelled, named) =
            session_label_of_sound v uid id pod carried in
          record {
            token = token;
            status = status;
            pod = pod;
            between = between;
            reviewed = r;
            authenticated = authenticated;
            for_audience = for_audience;
            account = account;
            found = ap (λ name. k8s.get_pod v.namespace name between) (sym is_name) ∙ found;
            same_pod = same_pod ∙ is_uid;
            is_helper = is_helper;
            labelled = labelled;
            presents = presented_sound authorization token p;
            named = named;
          }
    ]
  ]
]
