-- ===== src/RepoAccess/Tests.antt =====
-- control-plane/internal/repoaccess/store.go and control-plane/internal/helperauth/helperauth.go: runs on concrete calls.
use session_platform.Prelude.{
  ℕ, ◌+◌, ◌≡◌, refl, true, Option, none, some, is_empty, false, List, [], ◌∷◌, map, codes, text_eq,
  lookup, ok, err,
}
use session_platform.Session.Errors.{Error}
use session_platform.Session.Models.{trim_space, is_alnum}
use session_platform.Session.Types.{approval_gated}
use session_platform.Tenancy.Resolver.{cut_prefix}
use session_platform.Provisioning.{ClientOrchestrator, Pod}
use session_platform.Provisioning.Options.{
  new_client_orchestrator, with_options, default_orchestrator,
}
use session_platform.Provisioning.Helpers.{helper_pod, add_repo_access, add_drop}
use session_platform.Provisioning.Parts.{no_slot, shared_volume_enabled}
use session_platform.Provisioning.Workloads.{no_parts}
use session_platform.Provisioning.Build.{session_pod}
use session_platform.RepoAccess.Names.{
  normalize_repo, matches_repo, matches_rest, is_repo_char, all_repo_chars, cut_slash, trim_git,
  lower,
}
use session_platform.RepoAccess.Store.{
  Statement, find_entry, request_by_id, request_by_key, deleted, add_tx, add, insert, file_request,
  request, approve,
}
use session_platform.RepoAccess.History.{
  Operation, adding, requesting, approving, Call, perform, after,
}
use session_platform.RepoAccess.History.Consistent.{IsConsistent, after-IsConsistent}
use session_platform.RepoAccess.History.Granted.{Recorded, after-Recorded}
use session_platform.RepoAccess.Helpers.{
  Refusal, Status, BoundPod, HelperApi, pod_name_extra, pod_uid_extra, bound_pod, session_label_of,
  presented, session_of_pod, session_id,
}
use session_platform.RepoAccess.Helpers.Bound.{IsBound, session_id-IsBound}
use session_platform.RepoAccess.Helpers.Recognised.{
  platform_verifier, stands, status_of, token_audience, session_id-helper_pod,
}

abbrev accepts : Statement → Option Error
accepts s = none

abbrev call : Operation → Call
call operation = record { operation = operation; fails = accepts }

abbrev calls : List Call
calls =
    call (approving (codes "4") (codes "r1"))
    ∷ call (requesting (codes "3") (codes "r2") (codes "o/q") (codes "s2") (codes "read it"))
    ∷ call (requesting (codes "2") (codes "r1") (codes " O/R.git ") (codes "s1") (codes "fix it"))
    ∷ call (adding (codes "1") (codes "o/p"))
    ∷ []

listed_and_waiting :
    (map (λ e. e.repo) (after calls).allowlist ≡ codes "o/r" ∷ codes "o/p" ∷ [])
    × (map (λ r. r.id) (after calls).requests ≡ codes "r2" ∷ [])
unfolding after perform add add_tx request file_request insert approve find_entry request_by_id
    request_by_key deleted normalize_repo matches_repo matches_rest is_repo_char all_repo_chars
    cut_slash trim_git lower trim_space text_eq is_alnum
listed_and_waiting = (refl, refl)

after-IsConsistent_example : IsConsistent (after calls)
after-IsConsistent_example = after-IsConsistent calls

after-Recorded_example : Recorded calls (after calls)
after-Recorded_example = after-Recorded calls

-- The name that an entry gets is not always one that finds it again.
renamed :
    (normalize_repo (codes "o/r.GIT") ≡ ok (codes "o/r.git"))
    × (normalize_repo (codes "o/r.git") ≡ ok (codes "o/r"))
unfolding normalize_repo matches_repo matches_rest is_repo_char all_repo_chars cut_slash trim_git
    lower trim_space text_eq is_alnum
renamed = (refl, refl)

abbrev helper_status : Status
helper_status = record {
  authenticated = true;
  audiences = codes "session-platform" ∷ [];
  username = codes "system:serviceaccount:ns:session-mcp";
  extra = (pod_name_extra, codes "p" ∷ []) ∷ (pod_uid_extra, codes "7" ∷ []) ∷ [];
}

abbrev bound : BoundPod
bound = record {
  uid = codes "7";
  labels =
      (codes "session-id", codes "s1")
      ∷ (codes "session-platform.dev/pod-role", codes "helper")
      ∷ [];
}

-- The world counts the calls.
abbrev cluster : HelperApi ℕ
cluster = record {
  review_token = λ token audiences w. (ok helper_status, 1 + w);
  get_pod = λ namespace name w. (ok bound, 1 + w);
}

session_run :
    session_id cluster (platform_verifier (codes "ns")) (codes "Bearer abc") 0
    ≡ (ok (codes "s1"), 2)
unfolding session_id presented bound_pod session_of_pod session_label_of cut_prefix trim_space
    lookup text_eq
session_run = refl

session_id-IsBound_example :
    IsBound cluster (platform_verifier (codes "ns")) (codes "Bearer abc") (codes "s1") 0 2
session_id-IsBound_example =
    session_id-IsBound cluster (platform_verifier (codes "ns")) (codes "Bearer abc") (codes "s1") 0
      2 session_run

abbrev orchestrator : ClientOrchestrator
orchestrator = record (new_client_orchestrator (codes "ns") []) {
  repo_access_url = codes "http://cp";
}

abbrev helper : Pod
helper = helper_pod orchestrator (codes "s1") [] approval_gated none (codes "agent:v1")

-- A cluster in which the helper pod stands and the token is its own.
abbrev serving : HelperApi ℕ
serving = record {
  review_token =
      λ token audiences w. (ok (status_of (codes "session-platform") (codes "7") helper), 1 + w);
  get_pod = λ namespace name w. (ok (stands (codes "7") helper), 1 + w);
}

minted : token_audience (codes "repo-access-token") helper.volumes ≡ some (codes "session-platform")
unfolding token_audience helper_pod add_repo_access add_drop shared_volume_enabled text_eq
    new_client_orchestrator with_options default_orchestrator
minted = refl

token_run : is_empty (trim_space (codes "abc")) ≡ false
unfolding trim_space
token_run = refl

session_id-helper_pod_example :
    (session_id serving (platform_verifier (codes "ns")) (codes "Bearer abc") 0
      ≡ (ok (codes "s1"), 2))
    × (bound_pod (platform_verifier (codes "ns")) (
          status_of (codes "session-platform") (codes "7") (
            session_pod orchestrator
              (codes "s1")
              []
              []
              approval_gated
              (codes "agent:v1")
              no_parts
              no_slot))
        ≡ err Refusal.unauthenticated)
unfolding new_client_orchestrator with_options default_orchestrator
session_id-helper_pod_example =
    session_id-helper_pod serving orchestrator (codes "s1") [] [] (codes "agent:v1") (codes "7")
      (codes "abc") (codes "session-platform") (codes "session-platform") approval_gated none
      no_parts no_slot 0 1 2 refl refl refl token_run minted refl refl
