-- ===== src/Service/Create.antt =====
-- control-plane/internal/service/manager.go: `Create`.
use session_platform.Prelude.{
  ℕ, Option, none, List, Text, is_empty, Result, ok, err, and_then, Action, pure, raise, lift,
  handle, ignore, ◌>>=◌, ◌>>◌, if◌then◌else◌,
}
use session_platform.Session.Errors.{Error, sentinel, invalid_input}
use session_platform.Session.Types.{WorkloadType, normalize_workload_type, State}
use session_platform.Session.Models.{normalize_model, trim_space}
use session_platform.Session.Plugins.{normalize_plugins}
use session_platform.Session.Catalog.{normalize_reasoning_effort}
use session_platform.Session.Record.{Session}
use session_platform.Pods.{SessionPods, WorkloadSpec, all_pods, names}
use session_platform.Service.Ports.{Ports}
use session_platform.Service.Slots.{acquire_auth_slot, release_auth_slot_best_effort}

-- session.CreateRequest.
pub record CreateRequest : Type 0 where
  pub name : Text
  pub workload_type : WorkloadType
  pub model : Text
  pub plugins : Option (List Text)
  pub reasoning_effort : Text
  pub tenant : Text

-- The settings that `Create` and `Restore` hand to the orchestrator, with no slot yet.
unfoldable pub settings :
    WorkloadType → Text → Option (List Text) → Text → Result Error WorkloadSpec
settings workload model plugins effort = and_then (normalize_model workload model) λ m.
    and_then (normalize_plugins workload plugins) λ p.
      and_then (normalize_reasoning_effort workload effort) λ e.
        ok (record {
          type = workload;
          model = m;
          plugins = p;
          reasoning_effort = e;
          auth_slot = none;
        })

-- What is checked before anything is provisioned: the trimmed name and the settings.
unfoldable pub validate : CreateRequest → Result Error (Text × WorkloadSpec)
validate req =
    let name = trim_space req.name in
    if is_empty name
    then err (sentinel invalid_input)
    else and_then (normalize_workload_type req.workload_type) λ workload.
      and_then (settings workload req.model req.plugins req.reasoning_effort)
        λ spec. ok (name, spec)

abbrev pub fresh_session : Text → Text → Text → WorkloadSpec → SessionPods → ℕ → Session
fresh_session id tenant name spec pods now = record {
  id = id;
  workload_type = spec.type;
  model = spec.model;
  plugins = spec.plugins;
  reasoning_effort = spec.reasoning_effort;
  tenant = tenant;
  name = name;
  state = State.active;
  pod = pods.workload.name;
  auxiliary_pods = names pods;
  created_at = now;
  last_access = now;
  checkpoint = none;
  snapshot_transaction = none;
}

module _ {W : Type 0} (ports : Ports W) where
  -- A failed step stops every pod that was started.
  unfoldable pub register :
      Text → CreateRequest → Text → WorkloadSpec → SessionPods → Action W Error Session
  register id req name spec pods =
      handle (ports.orch.reach pods.workload) undo
        λ t w. store_fresh (fresh_session id req.tenant name spec pods (ports.now w)) w
    where
      undo : Error → Action W Error Session
      undo e = ignore (ports.orch.stop (all_pods pods)) >> raise e

      store_fresh : Session → Action W Error Session
      store_fresh sess = handle (ports.store.put sess) undo λ t. pure sess

  unfoldable pub provision : Text → CreateRequest → Text → WorkloadSpec → Action W Error Session
  provision id req name spec = do pods ← ports.orch.start id spec; register id req name spec pods

  -- The slot is given back on every failure.
  unfoldable pub create : CreateRequest → Action W Error Session
  create req = do
    checked ← lift (validate req)
    id ← ports.new_id
    slot ← acquire_auth_slot ports checked.1.type id
    handle (provision id req checked.0 (record checked.1 { auth_slot = slot }))
        (λ e. release_auth_slot_best_effort ports checked.1.type id none >> raise e) pure
