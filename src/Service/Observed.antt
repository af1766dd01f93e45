-- ===== src/Service/Observed.antt =====
-- Ports that note each call that changes something, and each record that is read, newest first. The proofs
-- about the order of calls run the operations of control-plane/internal/service on them.
use session_platform.Prelude.{
  ℕ, Bool, true, false, ◌&&◌, Option, none, some, List, [], ◌∷◌, Text, any, Result, ok, err, Action,
}
use session_platform.Session.Errors.{Error}
use session_platform.Session.Types.{Phase, committing}
use session_platform.Session.Record.{Session, Checkpoint, SnapshotTransaction}
use session_platform.Pods.{PodRef, SessionPods}
use session_platform.Store.Port.{StateStore}
use session_platform.Service.Ports.{Ports, PodOrchestrator, Checkpointer, AuthPool, Agent}

pub data Event : Type 0 where
  reads : Session → Event
  puts : Session → Bool → Event
  swaps : Text → Session → Bool → Event
  promotes deletes locks touches : Text → Bool → Event
  unlocks : Text → Event
  provisions : SessionPods → Event
  stops : List PodRef → Bool → Event
  checkpoints unpacks refreshes : Bool → Event
  writes : (pod : Text) (payload : List ℕ) → Bool → Event
  aborts : Text → Event
  leases_slot releases_slot : Text → Event
  fails : Event

abbrev pub Trace : Type 0
Trace = List Event

abbrev pub done : {A : Type 0} → Result Error A → Bool
done (ok a) = true
done (err e) = false

abbrev pub read_of : Result Error Session → Event
read_of (ok s) = reads s
read_of (err e) = fails

abbrev pub provision_of : Result Error SessionPods → Event
provision_of (ok pods) = provisions pods
provision_of (err e) = fails

abbrev pub on_option : {A B : Type 0} → (A → B) → Option A → Option B
on_option f none = none
on_option f (some a) = some (f a)

module _ {W : Type 0} where
  abbrev pub note :
      {A : Type 0} → (Result Error A → Event) → Action W Error A → Action (W × Trace) Error A
  note mark m s = let (r, w) = m s.0 in (r, (w, mark r ∷ s.1))

  abbrev pub silent : {A : Type 0} → Action W Error A → Action (W × Trace) Error A
  silent m s = let (r, w) = m s.0 in (r, (w, s.1))

  -- A callback that runs inside a call, whose own reads are not noted.
  abbrev inside : Trace → (Text → Action (W × Trace) Error Bool) → Text → Action W Error Bool
  inside t f x w = let (r, s) = f x (w, t) in (r, s.0)

  abbrev pub observed_store : StateStore W → StateStore (W × Trace)
  observed_store store = record {
    put = λ s. note (λ r. puts s (done r)) (store.put s);
    get = λ id. note read_of (store.get id);
    list = silent store.list;
    delete = λ id token. note (λ r. deletes token (done r)) (store.delete id token);
    touch = λ id at. note (λ r. touches id (done r)) (store.touch id at);
    compare_and_swap_state =
        λ id from to. note (λ r. promotes id (done r)) (store.compare_and_swap_state id from to);
    compare_and_swap_session = λ id token state txn next.
        note (λ r. swaps token next (done r))
          (store.compare_and_swap_session id token state txn next);
    lock = λ id token. note (λ r. locks token (done r)) (store.lock id token);
    renew = λ id token. silent (store.renew id token);
    unlock = λ id token. note (λ r. unlocks token) (store.unlock id token);
  }

  abbrev pub observed_orchestrator : PodOrchestrator W → PodOrchestrator (W × Trace)
  observed_orchestrator orch = record {
    start = λ id spec. note provision_of (orch.start id spec);
    stop = λ refs. note (λ r. stops refs (done r)) (orch.stop refs);
    restore_into = λ id ref spec. note provision_of (orch.restore_into id ref spec);
    reach = λ ref. silent (orch.reach ref);
  }

  abbrev pub observed_checkpointer : Checkpointer W → Checkpointer (W × Trace)
  observed_checkpointer ckpt = record {
    enabled = ckpt.enabled;
    checkpoint_with_generation = λ ref generation.
        note (λ r. checkpoints (done r)) (ckpt.checkpoint_with_generation ref generation);
    abort_checkpoint = λ ref cp. note (λ r. aborts cp.abort_token) (ckpt.abort_checkpoint ref cp);
    restore = λ cp ref. note (λ r. unpacks (done r)) (ckpt.restore cp ref);
  }

  abbrev pub observed_pool : AuthPool W → AuthPool (W × Trace)
  observed_pool pool = record {
    acquire = λ id stale s. note (λ r. leases_slot id) (pool.acquire id (inside s.1 stale)) s;
    release = λ id signed_in. note (λ r. releases_slot id) (pool.release id signed_in);
  }

  abbrev pub observed_agent : Agent W → Agent (W × Trace)
  observed_agent agent = record {
    write = λ pod payload. note (λ r. writes pod payload (done r)) (agent.write pod payload);
    read = λ pod offset. silent (agent.read pod offset);
    stream = λ pod offset. silent (agent.stream pod offset);
    refresh_plugins = λ pod. note (λ r. refreshes (done r)) (agent.refresh_plugins pod);
    abort_checkpoint =
        on_option (λ f pod generation. note (λ r. aborts generation) (f pod generation))
          agent.abort_checkpoint;
    awaiting_approval = on_option (λ f pod. silent (f pod)) agent.awaiting_approval;
    auth_slot_signed_in = on_option (λ f pod. silent (f pod)) agent.auth_slot_signed_in;
  }

  abbrev pub observed : Ports W → Ports (W × Trace)
  observed ports = record {
    store = observed_store ports.store;
    orch = observed_orchestrator ports.orch;
    checkpointers = λ w. on_option observed_checkpointer (ports.checkpointers w);
    agent = observed_agent ports.agent;
    auth_pools = λ w. on_option observed_pool (ports.auth_pools w);
    new_id = silent ports.new_id;
    now = λ s. ports.now s.0;
    ctx_err = λ s. ports.ctx_err s.0;
    deadline_err = λ s. ports.deadline_err s.0;
    renewal_err = λ s. ports.renewal_err s.0;
  }

abbrev pub is_commit : Phase → Option Checkpoint → Bool
is_commit committing (some cp) = true
is_commit _ _ = false

-- The record says that the freeze is decided: its archive is durable.
abbrev pub is_decided : Option SnapshotTransaction → Bool
is_decided none = false
is_decided (some txn) = is_commit txn.phase txn.checkpoint

abbrev pub commits : Session → Bool
commits s = is_decided s.snapshot_transaction

abbrev shows_commit : Event → Bool
shows_commit (reads s) = commits s
shows_commit (swaps token next true) = commits next
shows_commit _ = false

-- Such a record was read from the store, or written to it, before.
abbrev pub has_commit : Trace → Bool
has_commit = any shows_commit

-- Every stop of a pod comes after a durable commit.
abbrev pub stops_after_commit : Trace → Bool
stops_after_commit [] = true
stops_after_commit (stops refs b ∷ t) = has_commit t && stops_after_commit t
stops_after_commit (e ∷ t) = stops_after_commit t
