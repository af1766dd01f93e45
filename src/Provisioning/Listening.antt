-- ===== src/Provisioning/Listening.antt =====
-- control-plane/internal/adapter/k8s/{minimax_code,network_policy,client_orchestrator}.go: the ports that a
-- session's network policies admit against those that its helper pod serves.
use mathlib.Core.List.{Perm}
use mathlib.Core.List.Perm
use session_platform.Prelude.{
  ℕ, ◌≡◌, sym, ap, subst, Bool, true, false, not, ◌&&◌, ◌||◌, Option, none, some, List, [], ◌∷◌,
  ◌++◌, map, Text, codes, text_eq, is_empty, lookup, arith, if◌then◌else◌,
}
use session_platform.Session.Types.{
  WorkloadType, unspecified, shell, claude_code, approval_gated, minimax_code, codex_chat,
  codex_task, codex, has_approval_gate,
}
use session_platform.Slots.Leases.{itoa, parse_magnitude}
use session_platform.Tenancy.Resolver.{cut_colon}
use session_platform.Provisioning.{
  EnvVar, plain, from_secret, from_config, Container, Pod, ClientOrchestrator,
}
use session_platform.Provisioning.Names.{
  workload_name, credential_proxy_port, session_mcp_port, k3s_mcp_proxy_port,
}
use session_platform.Provisioning.Parts.{
  given, credential_proxy_container, k3s_mcp_proxy, repoint_to_mini_max,
}
use session_platform.Provisioning.Helpers.{
  is_minimax, repo_access_enabled, helper_proxy_containers, helper_pod, add_repo_access, add_drop,
}
use session_platform.Provisioning.Boundary.{
  Created, PolicyPort, Rule, NetworkPolicy, egress, ingress, helper_policy_ports,
  session_network_policies,
}

-- The plain value of a variable, empty without one.
plain_value : Text → List EnvVar → Text
plain_value name [] = []
plain_value name (e ∷ es) =
    let rest = plain_value name es in
    if text_eq e.name name
    then elim e.source [
      | plain value ↦ value
      | from_secret secret key optional ↦ []
      | from_config config key optional ↦ []
    ]
    else rest

-- The port of an address that other pods reach: one of all interfaces, not of the loopback.
open_port : Text → List ℕ
open_port addr = elim (cut_colon addr) [
  | none ↦ []
  | some (host, port) ↦
      if is_empty host || text_eq host (codes "0.0.0.0")
      then elim (parse_magnitude port) [ none ↦ [] | some n ↦ n ∷ [] ]
      else []
]

listened : List Container → List ℕ
listened [] = []
listened (c ∷ cs) = open_port (plain_value (codes "DATA_PLANE_AGENT_ADDR") c.env) ++ listened cs

-- The ports that the containers of a pod are told to listen on and that other pods reach.
pub served : Pod → List ℕ
served pod = listened pod.containers

rule_ports : List Rule → List ℕ
rule_ports [] = []
rule_ports (r ∷ rs) = map (λ (p : PolicyPort). p.port) r.ports ++ rule_ports rs

-- What the ingress policies of a session let in.
ingress_ports : List NetworkPolicy → List ℕ
ingress_ports [] = []
ingress_ports (p ∷ ps) =
    let rest = ingress_ports ps in
    elim p.policy_type [ egress ↦ rest | ingress ↦ rule_ports p.rules ++ rest ]

pub admitted : (namespace session_id : Text) → Created → List ℕ
admitted namespace session_id owner =
    ingress_ports (session_network_policies namespace session_id owner)

-- The K3s MCP proxy beside approval-gated's session MCP is for that container alone.
pub hidden : ClientOrchestrator → WorkloadType → List ℕ
hidden o workload =
    given (not (is_minimax workload) && repo_access_enabled o) (k3s_mcp_proxy_port ∷ [])

module _ (o : ClientOrchestrator) (session_id suffix image : Text)
    (plugins : Option (List Text)) where
  by_labels :
      (owner : Created) {labels : List (Text × Text)}
      → owner.labels ≡ labels
      → admitted o.namespace session_id owner
        ≡ admitted o.namespace session_id
            (record { name = owner.name; uid = owner.uid; labels = labels })
  by_labels owner h =
      ap
        (λ labels.
          admitted o.namespace session_id
            (record { name = owner.name; uid = owner.uid; labels = labels }))
        h

  gated_ports :
      (name uid : Text) (workload : WorkloadType)
      → has_approval_gate workload ≡ true
      → Perm
          (admitted o.namespace session_id (record {
            name = name;
            uid = uid;
            labels = (helper_pod o session_id suffix workload plugins image).labels;
          })
            ++ hidden o workload)
          (served (helper_pod o session_id suffix workload plugins image))
  unfolding admitted ingress_ports rule_ports session_network_policies hidden served listened
      plain_value open_port cut_colon itoa add_repo_access add_drop helper_policy_ports helper_pod
      helper_proxy_containers credential_proxy_container k3s_mcp_proxy repoint_to_mini_max
      workload_name has_approval_gate lookup text_eq
  gated_ports name uid approval_gated gated = with_access (repo_access_enabled o)
    where
      with_access :
          (b : Bool)
          → Perm (credential_proxy_port ∷ session_mcp_port ∷ given b (k3s_mcp_proxy_port ∷ [])) (
              session_mcp_port
              ∷ credential_proxy_port
              ∷ listened (
                  given b
                    (k3s_mcp_proxy o session_id image o.claude_credentials_secret false none ∷ [])))
      with_access true = Perm.swap _ _ _
      with_access false = Perm.swap _ _ _
  gated_ports name uid minimax_code gated = Perm.swap _ _ _
  gated_ports name uid unspecified gated = absurd (ground arith)
  gated_ports name uid shell gated = absurd (ground arith)
  gated_ports name uid claude_code gated = absurd (ground arith)
  gated_ports name uid codex_chat gated = absurd (ground arith)
  gated_ports name uid codex_task gated = absurd (ground arith)
  gated_ports name uid codex gated = absurd (ground arith)
  gated_ports name uid (WorkloadType.other kind) gated = absurd (ground arith)

  -- If the API server keeps the labels of the helper pod, the ingress policy of its session lets in exactly the
  -- ports that the pod's containers are told to listen on for other pods, each once, but for the K3s MCP proxy of
  -- an approval-gated session with repository access, which nobody outside the pod may reach.
  pub session_network_policies-served :
      (workload : WorkloadType) (owner : Created)
      → has_approval_gate workload ≡ true
      → owner.labels ≡ (helper_pod o session_id suffix workload plugins image).labels
      → Perm
          (admitted o.namespace session_id owner ++ hidden o workload)
          (served (helper_pod o session_id suffix workload plugins image))
  session_network_policies-served workload owner gated kept =
      subst
        (λ ports.
          Perm (ports ++ hidden o workload)
            (served (helper_pod o session_id suffix workload plugins image)))
        (sym (by_labels owner kept)) (gated_ports owner.name owner.uid workload gated)
