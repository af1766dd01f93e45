-- ===== src/Service/Ports.antt =====
-- control-plane/internal/service/manager.go: the ports of `Service`, over the world that they act on. An
-- optional capability of the agent client (a type assertion in the code) is an `Option`.
use session_platform.Prelude.{ℕ, Bool, Option, List, Text, Action}
use session_platform.Session.Errors.{Error}
use session_platform.Session.Types.{WorkloadType}
use session_platform.Session.Record.{Checkpoint}
use session_platform.Pods.{PodRef, SessionPods, WorkloadSpec}
use session_platform.Store.Port.{StateStore}

-- k8s.PodOrchestrator.
pub record PodOrchestrator (W : Type 0) : Type 0 where
  pub start : Text → WorkloadSpec → Action W Error SessionPods
  pub stop : List PodRef → Action W Error Unit
  pub restore_into : Text → Text → WorkloadSpec → Action W Error SessionPods
  pub reach : PodRef → Action W Error Unit

-- archive.Checkpointer.
pub record Checkpointer (W : Type 0) : Type 0 where
  pub enabled : Bool
  pub checkpoint_with_generation : PodRef → Text → Action W Error Checkpoint
  pub abort_checkpoint : PodRef → Checkpoint → Action W Error Unit
  pub restore : Option Checkpoint → PodRef → Action W Error Unit

-- k8s.AuthPool. The second argument of `acquire` tells whether a holder is stale.
pub record AuthPool (W : Type 0) : Type 0 where
  pub acquire : Text → (Text → Action W Error Bool) → Action W Error ℕ
  pub release : Text → Option Bool → Action W Error Unit

pub record PluginChanges : Type 0 where
  pub state : Text
  pub revision : Text
  pub added : List Text
  pub updated : List Text
  pub removed : List Text

-- agent.Client; a stream is named by a number.
pub record Agent (W : Type 0) : Type 0 where
  pub write : Text → List ℕ → Action W Error Unit
  pub read : Text → ℕ → Action W Error (List ℕ × ℕ)
  pub stream : Text → ℕ → Action W Error ℕ
  pub refresh_plugins : Text → Action W Error PluginChanges
  pub abort_checkpoint : Option (Text → Text → Action W Error Unit)
  pub awaiting_approval : Option (Text → Action W Error Bool)
  pub auth_slot_signed_in : Option (Text → Action W Error Bool)

-- `ctx_err` is `Err()` of the operation's context, `deadline_err` that of a context with a deadline derived
-- from it, and `renewal_err` what the lease heartbeat reports when it is stopped. What happened up to
-- a world decides all three, and the clock.
pub record Ports (W : Type 0) : Type 0 where
  pub store : StateStore W
  pub orch : PodOrchestrator W
  pub checkpointers : WorkloadType → Option (Checkpointer W)
  pub agent : Agent W
  pub auth_pools : WorkloadType → Option (AuthPool W)
  pub new_id : Action W Error Text
  pub now : W → ℕ
  pub ctx_err : W → Option Error
  pub deadline_err : W → Option Error
  pub renewal_err : W → Option Error
