-- ===== src/Provisioning/Boundary.antt =====
-- control-plane/internal/adapter/k8s/{network_policy,shared_volume,minimax_code}.go: what is created beside a
-- helper pod, which owns it.
use session_platform.Prelude.{
  ℕ, List, [], ◌∷◌, ◌++◌, Text, codes, text_eq, lookup, Action, pure, raise, ◌>>◌, handle,
  if◌then◌else◌,
}
use session_platform.Kubernetes.{is_already_exists}
use session_platform.Session.Errors.{Error, ApiError, api, wrapped}
use session_platform.Session.Types.{minimax_code}
use session_platform.Slots.Leases.{or_empty}
use session_platform.Provisioning.{ClientOrchestrator}
use session_platform.Provisioning.Names.{
  workload_name, shared_claim_name, credential_proxy_port, session_mcp_port, k3s_mcp_proxy_port,
}
use session_platform.Provisioning.Parts.{given, shared_volume_enabled}

-- A pod as the API server returns it, with what the code looks at.
pub record Created : Type 0 where
  pub name : Text
  pub uid : Text
  pub labels : List (Text × Text)

pub data Protocol : Type 0 where
  udp tcp : Protocol

pub record PolicyPort : Type 0 where
  pub protocol : Protocol
  pub port : ℕ

-- Pods with these labels, of the policy's namespace or of those with a label.
pub data Peer : Type 0 where
  pods : (pod_selector : List (Text × Text)) → Peer
  pods_in : (namespace_selector pod_selector : List (Text × Text)) → Peer

pub record Rule : Type 0 where
  pub peer : Peer
  pub ports : List PolicyPort

pub data PolicyType : Type 0 where
  egress ingress : PolicyType

pub record NetworkPolicy : Type 0 where
  pub name : Text
  pub namespace : Text
  pub labels : List (Text × Text)
  pub owner_uid : Text
  pub pod_selector : List (Text × Text)
  pub policy_type : PolicyType
  pub rules : List Rule

pub record SharedClaim : Type 0 where
  pub name : Text
  pub namespace : Text
  pub labels : List (Text × Text)
  pub owner_uid : Text
  pub storage_class : Text
  pub storage_size : Text

abbrev pub workload_type_label : Text
workload_type_label = codes "session-platform.dev/workload-type"

abbrev tcp_port : ℕ → PolicyPort
tcp_port port = record { protocol = tcp; port = port }

unfoldable pub helper_policy_ports : Created → List PolicyPort
helper_policy_ports owner =
    let kind = or_empty (lookup workload_type_label owner.labels) in
    tcp_port credential_proxy_port
    ∷ tcp_port session_mcp_port
    ∷ given (text_eq kind (workload_name minimax_code)) (tcp_port k3s_mcp_proxy_port ∷ [])

module _ (namespace session_id : Text) where
  abbrev role_selector : Text → List (Text × Text)
  role_selector role =
      (codes "session-id", session_id) ∷ (codes "session-platform.dev/pod-role", role) ∷ []

  abbrev owned_labels : List (Text × Text)
  owned_labels =
      (codes "session-id", session_id)
      ∷ (codes "app.kubernetes.io/managed-by", codes "control-plane")
      ∷ []

  abbrev dns_rule : Rule
  dns_rule = record {
    peer =
        pods_in ((codes "kubernetes.io/metadata.name", codes "kube-system") ∷ [])
          ((codes "k8s-app", codes "kube-dns") ∷ []);
    ports = record { protocol = udp; port = 53 } ∷ tcp_port 53 ∷ [];
  }

  abbrev policy : Created → Text → Text → PolicyType → List Rule → NetworkPolicy
  policy owner suffix role kind rules = record {
    name = owner.name ++ suffix;
    namespace = namespace;
    labels = owned_labels;
    owner_uid = owner.uid;
    pod_selector = role_selector role;
    policy_type = kind;
    rules = rules;
  }

  unfoldable pub session_network_policies : Created → List NetworkPolicy
  session_network_policies owner =
      policy owner (codes "-workload-egress") (codes "workload") egress (
        dns_rule
        ∷ record { peer = pods (role_selector (codes "helper")); ports = helper_policy_ports owner }
        ∷ [])
      ∷ policy owner (codes "-helper-ingress") (codes "helper") ingress (
          record {
            peer = pods (role_selector (codes "workload"));
            ports = helper_policy_ports owner;
          }
          ∷ [])
      ∷ []

unfoldable pub shared_volume_claim : ClientOrchestrator → Text → Created → SharedClaim
shared_volume_claim o session_id owner = record {
  name = shared_claim_name owner.name;
  namespace = o.namespace;
  labels = owned_labels o.namespace session_id;
  owner_uid = owner.uid;
  storage_class = o.shared_volume_storage_class;
  storage_size = o.shared_volume_size;
}

pub record BoundaryApi (W : Type 0) : Type 0 where
  pub create_network_policy : NetworkPolicy → Action W ApiError Unit
  pub create_claim : SharedClaim → Action W ApiError Unit

module _ {W : Type 0} (k8s : BoundaryApi W) (o : ClientOrchestrator) (session_id : Text) where
  -- One that is there already is left alone.
  abbrev if_absent : Action W ApiError Unit → Action W Error Unit
  if_absent create =
      handle create (λ e. if is_already_exists e then pure tt else raise (wrapped (api e)))
        λ done. pure tt

  abbrev apply_policies : List NetworkPolicy → Action W Error Unit
  apply_policies [] = pure tt
  apply_policies (p ∷ ps) = if_absent (k8s.create_network_policy p) >> apply_policies ps

  unfoldable pub apply_session_network_policies : Created → Action W Error Unit
  apply_session_network_policies owner =
      apply_policies (session_network_policies o.namespace session_id owner)

  unfoldable pub apply_shared_volume_claim : Created → Action W Error Unit
  apply_shared_volume_claim owner =
      if shared_volume_enabled o
      then if_absent (k8s.create_claim (shared_volume_claim o session_id owner))
      else pure tt
