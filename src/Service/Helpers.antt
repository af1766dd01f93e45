-- ===== src/Service/Helpers.antt =====
-- control-plane/internal/service/manager.go: the helpers that the operations share.
use session_platform.Prelude.{
  Bool, false, not, ◌||◌, any, Option, none, some, List, [], ◌∷◌, ◌++◌, map, Text, text_eq,
  is_empty, codes, Result, ok, err, and_then, Action, pure, lift, attempt, handle, ignore, ◌>>=◌,
  ◌>>◌, if◌then◌else◌,
}
use session_platform.Session.Errors.{Error, sentinel, checkpoint_disabled, joined}
use session_platform.Session.Types.{WorkloadType, normalize_stored_workload_type, has_approval_gate}
use session_platform.Session.Models.{normalize_model}
use session_platform.Session.Catalog.{normalize_reasoning_effort}
use session_platform.Session.Record.{Session, Checkpoint, pods}
use session_platform.Pods.{PodRef, named}
use session_platform.Service.Ports.{Ports, Checkpointer}

unfoldable pub normalize_stored_session : Session → Result Error Session
normalize_stored_session s = and_then (normalize_stored_workload_type s.workload_type) λ workload.
    and_then (normalize_model workload s.model) λ model.
      and_then (normalize_reasoning_effort workload s.reasoning_effort) λ effort.
        ok (record s { workload_type = workload; model = model; reasoning_effort = effort })

unfoldable pub session_pod_refs : Session → List PodRef
session_pod_refs s = map named (pods s)

abbrev pub names_pod : Text → List PodRef → Bool
names_pod name = any (λ r. text_eq r.name name)

unfoldable pub session_reclaim_refs : Session → Text → List PodRef
session_reclaim_refs s extra =
    if is_empty extra
    then session_pod_refs s
    else if names_pod extra (session_pod_refs s)
    then session_pod_refs s
    else session_pod_refs s ++ named extra ∷ []

unfoldable pub checkpoint_ref : Option Checkpoint → Text
checkpoint_ref none = []
checkpoint_ref (some cp) = cp.ref

pub data Branch : Type 0 where
  active idle_active snapshot_restore : Branch

-- The label of a branch: "active", "idle->active" or "snapshot->restore".
abbrev branch_label : Branch → Text
branch_label active = codes "active"
branch_label idle_active = codes "idle->active"
branch_label snapshot_restore = codes "snapshot->restore"

unfoldable pub dispatch_path : Branch → Text → Text
dispatch_path active op = codes "active"
dispatch_path branch op = branch_label branch ++ codes "->" ++ op

-- The error of the heartbeat, when it is stopped, joins the operation's.
abbrev pub with_renewal : {A : Type 0} → Result Error A → Option Error → Result Error A
with_renewal r none = r
with_renewal (ok a) (some e) = err e
with_renewal (err c) (some e) = err (joined c e)

module _ {W : Type 0} (ports : Ports W) where
  -- `if err := ctx.Err(); err != nil { return err }`.
  abbrev pub check_context : Action W Error Unit
  check_context w = elim (ports.ctx_err w) [ none ↦ (ok tt, w) | some e ↦ (err e, w) ]

  abbrev pub check_deadline : Action W Error Unit
  check_deadline w = elim (ports.deadline_err w) [ none ↦ (ok tt, w) | some e ↦ (err e, w) ]

  unfoldable pub get : Text → Action W Error Session
  get id = do s ← ports.store.get id; lift (normalize_stored_session s)

  unfoldable pub unlock_best_effort : Text → Text → Action W Error Unit
  unlock_best_effort id token = ignore (ports.store.unlock id token)

  unfoldable pub stop_pods_best_effort : List PodRef → Action W Error Unit
  stop_pods_best_effort refs = ignore (ports.orch.stop refs)

  unfoldable pub touch : Text → Action W Error Unit
  touch id w = ignore (ports.store.touch id (ports.now w)) w

  unfoldable pub touch_get : Text → Action W Error Session
  touch_get id = touch id >> get id

  abbrev usable : Option (Checkpointer W) → Result Error (Checkpointer W)
  usable none = err (sentinel checkpoint_disabled)
  usable (some ckpt) = if ckpt.enabled then ok ckpt else err (sentinel checkpoint_disabled)

  unfoldable pub checkpointer_for : WorkloadType → Result Error (Checkpointer W)
  checkpointer_for workload =
      and_then (normalize_stored_workload_type workload) λ w. usable (ports.checkpointers w)

  unfoldable pub holding_for_approval : Session → Action W Error Bool
  holding_for_approval s =
      if not (has_approval_gate s.workload_type) || is_empty s.pod
      then pure false
      else elim ports.agent.awaiting_approval [
        | none ↦ pure false
        | some ask ↦ handle (ask s.pod) (λ e. pure false) pure
      ]

  -- The heartbeat's report, when it is stopped at the end.
  abbrev pub stop_renewal : {A : Type 0} → Result Error A → Action W Error (Result Error A)
  stop_renewal result w = (ok (with_renewal result (ports.renewal_err w)), w)

  -- A locked operation and its deferred calls: the heartbeat is stopped and the lock is given back.
  unfoldable pub locked : {A : Type 0} → Text → (Text → Action W Error A) → Action W Error A
  locked id body = do
    token ← ports.new_id
    ports.store.lock id token
    result ← attempt (body token)
    settled ← stop_renewal result
    unlock_best_effort id token
    lift settled
