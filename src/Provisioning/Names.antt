-- ===== src/Provisioning/Names.antt =====
-- control-plane/internal/adapter/k8s/client_orchestrator.go: names of pods and labels, and images.
use session_platform.Prelude.{
  ℕ, Bool, true, false, ◌||◌, Option, none, some, [], ◌∷◌, ◌++◌, Text, codes, text_eq, is_empty,
  ◌==◌, any, if◌then◌else◌, Result, ok, err,
}
use session_platform.Session.Errors.{Error, failed}
use session_platform.Session.Types.{
  WorkloadType, unspecified, shell, claude_code, approval_gated, minimax_code, codex_chat,
  codex_task, codex,
}
use session_platform.Slots.Leases.{itoa}
use session_platform.Provisioning.{
  PullPolicy, pull_always, pull_if_not_present, ClientOrchestrator, HelperEndpoints,
}

unfoldable pub pod_name : Text → Text
pod_name session_id = codes "sess-" ++ session_id

unfoldable pub restore_pod_name : Text → Text → Text
restore_pod_name session_id suffix = pod_name session_id ++ codes "-r" ++ suffix

unfoldable pub helper_pod_name_for : Text → Text → Text
helper_pod_name_for session_id suffix =
    if is_empty suffix
    then pod_name session_id ++ codes "-helper"
    else pod_name session_id ++ codes "-h" ++ suffix

unfoldable pub shared_claim_name : Text → Text
shared_claim_name helper_pod = helper_pod ++ codes "-shared"

-- The text of a type, as in labels and variables.
unfoldable pub workload_name : WorkloadType → Text
workload_name unspecified = []
workload_name shell = codes "shell"
workload_name claude_code = codes "claude-code"
workload_name approval_gated = codes "approval-gated"
workload_name minimax_code = codes "minimax-code"
workload_name codex_chat = codes "codex-chat"
workload_name codex_task = codes "codex-task"
workload_name codex = codes "codex"
workload_name (WorkloadType.other name) = name

-- What follows the last `sep`, if there is one.
unfoldable pub after_last : ℕ → Text → Option Text
after_last sep [] = none
after_last sep (c ∷ s) = elim (after_last sep s) [
  | some rest ↦ some rest
  | none ↦ if c == sep then some s else none
]

abbrev image_ref : Text → Text
image_ref image = elim (after_last b'/' image) [ none ↦ image | some rest ↦ rest ]

abbrev image_tag : Text → Text
image_tag ref = elim (after_last b':' ref) [ none ↦ [] | some tag ↦ tag ]

-- A digest or a tag other than `latest` is taken to name one image for good.
unfoldable pub pull_policy_for_image : Text → PullPolicy
pull_policy_for_image image =
    let ref = image_ref image in
    let tag = image_tag ref in
    if any (λ c. c == b'@') ref
    then pull_if_not_present
    else if is_empty tag || text_eq tag (codes "latest")
    then pull_always
    else pull_if_not_present

abbrev is_shell : WorkloadType → Bool
is_shell shell = true
is_shell _ = false

unfoldable pub image_for : ClientOrchestrator → WorkloadType → Result Error Text
image_for o workload = elim (o.workload_images workload) [
  | some image ↦ ok image
  | none ↦ if is_shell workload then ok o.image else err (failed 20)
]

abbrev pub credential_proxy_port : ℕ
credential_proxy_port = 8091

abbrev pub session_mcp_port : ℕ
session_mcp_port = 8092

abbrev pub k3s_mcp_proxy_port : ℕ
k3s_mcp_proxy_port = 8093

abbrev pub workload_agent_port : ℕ
workload_agent_port = 8090

-- `net.JoinHostPort` for an IPv4 address.
abbrev pub url_of : Text → ℕ → Text
url_of ip port = codes "http://" ++ ip ++ codes ":" ++ itoa port

unfoldable pub endpoints_for : Text → HelperEndpoints
endpoints_for pod_ip = record {
  proxy_url = url_of pod_ip credential_proxy_port;
  mcp_url = url_of pod_ip session_mcp_port;
  k3s_mcp_url = url_of pod_ip k3s_mcp_proxy_port;
}
