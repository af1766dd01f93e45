-- ===== src/Service/Tests.antt =====
-- control-plane/internal/service: runs of the operations on concrete ports over a single record.
use session_platform.Prelude.{
  ℕ, ◌≡◌, refl, Bool, true, Option, none, some, List, [], ◌∷◌, Text, codes, Result, ok, err, Action,
  arith, all, length, ◌≤◌,
}
use session_platform.Session.Errors.{Error, sentinel, not_found, failed, unfinished}
use session_platform.Session.Types.{
  shell, active, snapshot, preparing, state_eq, normalize_workload_type,
  normalize_stored_workload_type, queues_prompts,
}
use session_platform.Session.Models.{normalize_model, dispatch_model, trim_space}
use session_platform.Session.Plugins.{normalize_plugins}
use session_platform.Session.Catalog.{normalize_reasoning_effort}
use session_platform.Session.Record.{Session}
use session_platform.Pods.{SessionPods, named}
use session_platform.Store.Port.{StateStore}
use session_platform.Service.Ports.{Ports, Checkpointer}
use session_platform.Service.Observed.{Trace, observed, stops_after_commit}
use session_platform.Service.Slots.{
  acquire_auth_slot, auth_slot_signed_in, release_auth_slot_best_effort,
}
use session_platform.Service.Helpers.{
  normalize_stored_session, get, touch, checkpointer_for, locked, unlock_best_effort,
  stop_pods_best_effort, dispatch_path,
}
use session_platform.Service.Create.{CreateRequest, settings, validate, register, provision, create}
use session_platform.Service.Transactions.{finalize_snapshot_locked, finalize_with}
use session_platform.Service.Freeze.{
  reclaim_committed, commit_snapshot, snapshot_with_transaction_locked,
}
use session_platform.Service.Recovery.{recover_round, recover_snapshot_locked}
use session_platform.Service.Snapshot.{load_settled, freeze, snapshot_session}
use session_platform.Service.Restore.{
  restore_settings, prepare_restored, restore_into_pods, conclude, restore_snapshot, restore,
}
use session_platform.Service.Access.{WriteResult, stream, activate, write}
use session_platform.Service.Terminate.{terminate}
use session_platform.Service.Reaper.{scan}
use session_platform.Service.FreezeSafety.{snapshot_session-stops_after_commit}
use session_platform.Service.Frozen.{answers_frozen, snapshot_session-answers_frozen}
use session_platform.Service.Cleaned.{cleaned}
use session_platform.Service.Cleanup.{create-cleaned, restore-cleaned, Unwound}
use session_platform.Service.Deletion.{stopped_for_delete, terminate-stopped_for_delete}
use session_platform.Service.Passive.{
  is_passive, stream-is_passive, delivered_then_touched, write-touches_last,
}
use session_platform.Service.Rounds.{Undisturbed, recover_snapshot_locked-one_round}
use session_platform.Service.Sweep.{noting, due, scan-due}

abbrev World : Type 0
World = Option Session

abbrev stored : Option Session → Result Error Session
stored none = err (sentinel not_found)
stored (some s) = ok s

abbrev listed : Option Session → List Session
listed none = []
listed (some s) = s ∷ []

-- A store of one record whose swaps are accepted.
abbrev store : StateStore World
store = record {
  put = λ s w. (ok tt, some s);
  get = λ id w. (stored w, w);
  list = λ w. (ok (listed w), w);
  delete = λ id token w. (ok tt, none);
  touch = λ id at w. (ok tt, w);
  compare_and_swap_state = λ id from to w. (ok tt, w);
  compare_and_swap_session = λ id token state txn next w. (ok tt, some next);
  lock = λ id token w. (ok tt, w);
  renew = λ id token w. (ok tt, w);
  unlock = λ id token w. (ok tt, w);
}

abbrev pod_set : SessionPods
pod_set = record { workload = named (codes "pod-1"); auxiliary = named (codes "aux-1") ∷ [] }

abbrev checkpointer : Checkpointer World
checkpointer = record {
  enabled = true;
  checkpoint_with_generation = λ ref generation w. (
    ok (record {
      ref = codes "ck";
      size_bytes = 3;
      created_at = 4;
      reclaimed = [];
      abort_token = generation;
    }),
    w,
  );
  abort_checkpoint = λ ref cp w. (ok tt, w);
  restore = λ cp ref w. (ok tt, w);
}

-- The argument tells how a probe of the workload goes.
abbrev ports : Result Error Unit → Ports World
ports probe = record {
  store = store;
  orch = record {
    start = λ id spec w. (ok pod_set, w);
    stop = λ refs w. (ok tt, w);
    restore_into = λ id ref spec w. (ok pod_set, w);
    reach = λ ref w. (probe, w);
  };
  checkpointers = λ w. some checkpointer;
  agent = record {
    write = λ pod payload w. (ok tt, w);
    read = λ pod offset w. (ok ([], offset), w);
    stream = λ pod offset w. (ok 1, w);
    refresh_plugins = λ pod w. (err (failed 3), w);
    abort_checkpoint = none;
    awaiting_approval = none;
    auth_slot_signed_in = none;
  };
  auth_pools = λ w. none;
  new_id = λ w. (ok (codes "n1"), w);
  now = λ w. 100;
  ctx_err = λ w. none;
  deadline_err = λ w. none;
  renewal_err = λ w. none;
}

abbrev session : Session
session = record {
  id = codes "x";
  workload_type = shell;
  model = [];
  plugins = none;
  reasoning_effort = [];
  tenant = [];
  name = codes "work";
  state = active;
  pod = codes "pod-1";
  auxiliary_pods = codes "aux-1" ∷ [];
  created_at = 1;
  last_access = 20;
  checkpoint = none;
  snapshot_transaction = none;
}

abbrev working : Ports World
working = ports (ok tt)

snapshot_session-stops_after_commit_example :
    stops_after_commit
      (snapshot_session (observed working) 3 (codes "x") none (some session, [])).1.1
    ≡ true
snapshot_session-stops_after_commit_example =
    snapshot_session-stops_after_commit working 3 (codes "x") none (some session)

abbrev frozen : Session × Bool
frozen = (
  record session {
    state = snapshot;
    pod = [];
    auxiliary_pods = [];
    checkpoint = some (record {
      ref = codes "ck";
      size_bytes = 3;
      created_at = 4;
      reclaimed = [];
      abort_token = codes "n1";
    });
  },
  true,
)

snapshot_run :
    snapshot_session working 3 (codes "x") none (some session) ≡ (ok frozen, some frozen.0)
unfolding snapshot_session locked load_settled freeze get normalize_stored_session
    normalize_stored_workload_type normalize_model dispatch_model trim_space
    normalize_reasoning_effort state_eq checkpointer_for snapshot_with_transaction_locked
    commit_snapshot reclaim_committed auth_slot_signed_in finalize_snapshot_locked finalize_with
    release_auth_slot_best_effort unlock_best_effort
snapshot_run = refl

snapshot_session-answers_frozen_example : answers_frozen none frozen ≡ true
snapshot_session-answers_frozen_example =
    snapshot_session-answers_frozen working 3 (codes "x") none (some session) (some frozen.0) frozen
      snapshot_run

abbrev request : CreateRequest
request = record {
  name = codes "work";
  workload_type = shell;
  model = [];
  plugins = none;
  reasoning_effort = [];
  tenant = [];
}

-- A workload that never answers its probe.
abbrev unreachable : Ports World
unreachable = ports (err (failed 7))

abbrev failed_create : Result Error Session × (World × Trace)
failed_create = create (observed unreachable) request (none, [])

create_run : failed_create ≡ (err (failed 7), failed_create.1)
unfolding create validate settings trim_space normalize_workload_type normalize_model dispatch_model
    normalize_plugins normalize_reasoning_effort acquire_auth_slot provision register
    release_auth_slot_best_effort
create_run = refl

create-cleaned_example : cleaned [] failed_create.1.1 ≡ true
create-cleaned_example =
    create-cleaned unreachable request none (failed 7) failed_create.1 create_run

abbrev failed_restore : Result Error Session × (World × Trace)
failed_restore = restore (observed unreachable) 2 (codes "x") (some frozen.0, [])

restore_run : failed_restore ≡ (err (failed 7), failed_restore.1)
unfolding restore locked unlock_best_effort load_settled get normalize_stored_session
    restore_snapshot restore_settings settings normalize_stored_workload_type trim_space
    normalize_workload_type normalize_model dispatch_model normalize_plugins
    normalize_reasoning_effort acquire_auth_slot checkpointer_for restore_into_pods prepare_restored
    stop_pods_best_effort conclude release_auth_slot_best_effort state_eq
restore_run = refl

restore-cleaned_example : Unwound unreachable (codes "x") (failed 7) failed_restore.1
restore-cleaned_example =
    restore-cleaned unreachable 2 (codes "x") (some frozen.0) (failed 7) failed_restore.1
      restore_run

terminate-stopped_for_delete_example :
    stopped_for_delete (terminate (observed working) (codes "x") (some session, [])).1.1 ≡ true
terminate-stopped_for_delete_example =
    terminate-stopped_for_delete working (codes "x") (some session)

stream-is_passive_example :
    all is_passive (stream (observed working) (codes "x") 5 (some session, [])).1.1 ≡ true
stream-is_passive_example = stream-is_passive working (codes "x") 5 (some session)

abbrev written : Result Error WriteResult × (World × Trace)
written = write (observed working) 3 (codes "x") (codes "ls") (some session, [])

abbrev answer : WriteResult
answer = record { session = session; path = codes "active" }

write_run : written ≡ (ok answer, written.1)
unfolding write get normalize_stored_session normalize_stored_workload_type normalize_model
    dispatch_model trim_space normalize_reasoning_effort queues_prompts activate touch dispatch_path
write_run = refl

write-touches_last_example :
    delivered_then_touched (codes "x") answer.session.pod (codes "ls") written.1.1 ≡ true
write-touches_last_example =
    write-touches_last working 3 (codes "x") (codes "ls") (some session) answer written.1 write_run

-- A session whose freeze another replica had begun.
abbrev interrupted : Session
interrupted = record session {
  snapshot_transaction = some (record {
    generation = codes "g0";
    owner = codes "t0";
    source_pod = codes "pod-0";
    phase = preparing;
    checkpoint = none;
  });
}

undisturbed : Undisturbed working
undisturbed id token state txn next w e h = ground (arith, h)

abbrev no_more : Session → Action World Error Session
no_more s w = (err unfinished, w)

recover_snapshot_locked-one_round_example :
    recover_snapshot_locked working 3 interrupted (codes "t1") (some interrupted)
    ≡ recover_round working no_more interrupted (codes "t1") (some interrupted)
recover_snapshot_locked-one_round_example =
    recover_snapshot_locked-one_round working 2 no_more interrupted (codes "t1") (some interrupted)
      undisturbed

abbrev list_all : Action World Error (List Session)
list_all w = (ok (listed w), w)

abbrev clock : World → ℕ
clock w = 100

abbrev guarded : Text → ℕ → Action World Error (Session × Bool)
guarded id cutoff w = (ok (session, true), w)

abbrev sessions : List Session
sessions = session ∷ frozen.0 ∷ record session { id = codes "y"; last_access = 95 } ∷ []

scan-due_example :
    (m : ℕ) × (v : World) × (scan (noting list_all clock guarded) 50 100 sessions 0 (none, [])
      ≡ (ok m, (v, due 50 100 sessions [])))
    × (m ≤ length (due 50 100 sessions []))
scan-due_example = scan-due list_all clock guarded 50 100 sessions none
