-- ===== src/Store/Tests.antt =====
-- control-plane/internal/adapter/configmap/store.go: runs of the store on a concrete API server.
use session_platform.Prelude.{
  ℕ, zero, suc, ◌≡◌, refl, true, Option, none, some, List, [], ◌∷◌, Text, codes, text_eq, insert,
  lookup, Result, ok, err, arith,
}
use session_platform.Session.Errors.{Error, failed}
use session_platform.Session.Types.{
  State, WorkloadType, Phase, shell, active, preparing, state_eq, phase_eq,
}
use session_platform.Session.Record.{Session, Checkpoint, SnapshotTransaction}
use session_platform.Kubernetes.{ConfigMap, Lease, Api}
use session_platform.Kubernetes.Versions.{Versioned}
use session_platform.Store.Objects.{
  Codec, StoredSession, cm_name, lock_name, data_key, annotation_lifecycle_owner, decode,
  encode_into, same_snapshot_transaction, lease_seconds,
}
use session_platform.Store.Records.{compare_and_swap_session, replacement, delete}
use session_platform.Store.Leases.{lock, held_by_us_or_expired, lease_for}
use session_platform.Store.Stored.{RoundTrips, is_storable, decode-encode_into}
use session_platform.Store.Swaps.{Swapped, compare_and_swap_session-Swapped}
use session_platform.Store.Fences.{Fenced, noting_deletes, delete-Fenced}
use session_platform.Store.Takeover.{Acquired, lock-Acquired}
use session_platform.Store.World.{World, server, server_laws}

-- A codec for active shell sessions without pods: the two times, the generation of a transaction, and the id.
abbrev demo : ℕ → ℕ → Text → Option SnapshotTransaction → StoredSession
demo created last id transaction = record {
  session = record {
    id = id;
    workload_type = shell;
    model = [];
    plugins = none;
    reasoning_effort = [];
    tenant = [];
    name = [];
    state = active;
    pod = [];
    auxiliary_pods = [];
    created_at = created;
    last_access = last;
    checkpoint = none;
    snapshot_transaction = none;
  };
  snapshot_txn = transaction;
}

abbrev preparing_generation : ℕ → SnapshotTransaction
preparing_generation c = record {
  generation = c ∷ [];
  owner = [];
  source_pod = [];
  phase = preparing;
  checkpoint = none;
}

abbrev marshal_transaction :
    Text → Text → Text → Phase → Option Checkpoint → Text → Result Error Text
marshal_transaction (c ∷ []) [] [] preparing none raw = ok (1 ∷ c ∷ raw)
marshal_transaction _ _ _ _ _ raw = err (failed 9)

abbrev marshal_envelope : Option SnapshotTransaction → Text → Result Error Text
marshal_envelope none raw = ok (0 ∷ raw)
marshal_envelope (some t) raw =
    marshal_transaction t.generation t.owner t.source_pod t.phase t.checkpoint raw

abbrev marshal_fields :
    Text
    → WorkloadType
    → Text
    → Option (List Text)
    → Text
    → Text
    → State
    → Text
    → List Text
    → Option Checkpoint
    → Option SnapshotTransaction
    → Text
    → Result Error Text
marshal_fields [] shell [] none [] [] active [] [] none transaction raw =
    marshal_envelope transaction raw
marshal_fields _ _ _ _ _ _ _ _ _ _ _ raw = err (failed 9)

abbrev unmarshal_text : Text → Result Error StoredSession
unmarshal_text (zero ∷ created ∷ last ∷ id) = ok (demo created last id none)
unmarshal_text (suc zero ∷ c ∷ created ∷ last ∷ id) =
    ok (demo created last id (some (preparing_generation c)))
unmarshal_text raw = err (failed 8)

abbrev codec : Codec
codec = record {
  marshal = λ stored.
      let s = stored.session in
      marshal_fields s.name s.workload_type s.model s.plugins s.reasoning_effort s.tenant s.state
        s.pod s.auxiliary_pods s.checkpoint stored.snapshot_txn
        (s.created_at ∷ s.last_access ∷ s.id);
  unmarshal = unmarshal_text;
}

codec-RoundTrips : RoundTrips codec
codec-RoundTrips = record { unmarshal-marshal = λ s raw valid h. ground (arith, h) }

abbrev x : Text
x = codes "x"

abbrev owner : Text
owner = codes "t1"

abbrev stored_session : Session
stored_session = record (demo 1 20 x none).session {
  snapshot_transaction = some (preparing_generation 5);
}

-- The record that a client read before a touch moved the access time to 20.
abbrev stale_session : Session
stale_session = record stored_session { last_access = 7; created_at = 2 }

abbrev stored_cm : ConfigMap
stored_cm = record {
  name = codes "session-x";
  labels = [];
  annotations = (annotation_lifecycle_owner, owner) ∷ [];
  contents = (data_key, 1 ∷ 5 ∷ 1 ∷ 20 ∷ x) ∷ [];
  resource_version = 4;
}

abbrev world : World
world = (record { clock = 4; object = some stored_cm }, record { clock = 0; object = none })

abbrev api : Api World
api = server (codes "session-x") (codes "session-lock-x")

laws : Versioned api
laws = server_laws (codes "session-x") (codes "session-lock-x")

storable_run : is_storable stale_session ≡ true
unfolding is_storable
storable_run = refl

decode-encode_into_example :
    decode codec (record stored_cm { contents = (data_key, 1 ∷ 5 ∷ 2 ∷ 7 ∷ x) ∷ [] })
    ≡ ok stale_session
unfolding encode_into insert
decode-encode_into_example =
    decode-encode_into codec (record stored_cm { contents = [] })
      (record stored_cm { contents = (data_key, 1 ∷ 5 ∷ 2 ∷ 7 ∷ x) ∷ [] })
      (record stored_cm { contents = (data_key, 1 ∷ 5 ∷ 2 ∷ 7 ∷ x) ∷ [] }) stale_session
      codec-RoundTrips storable_run refl refl

abbrev swapped_world : World
swapped_world = (
  record {
    clock = 5;
    object = some (record stored_cm { contents = (data_key, 1 ∷ 5 ∷ 2 ∷ 20 ∷ x) ∷ [] });
  },
  world.1,
)

swap_run :
    compare_and_swap_session api codec x owner active
      (some (preparing_generation 5))
      (some stale_session)
      world
    ≡ (ok tt, swapped_world)
unfolding compare_and_swap_session decode encode_into cm_name text_eq state_eq
    same_snapshot_transaction replacement insert lookup phase_eq
swap_run = refl

compare_and_swap_session-Swapped_example :
    Swapped api codec laws x owner active
      (some (preparing_generation 5))
      stale_session
      world
      swapped_world
compare_and_swap_session-Swapped_example =
    compare_and_swap_session-Swapped api codec laws x owner active (some (preparing_generation 5))
      stale_session world swapped_world codec-RoundTrips storable_run swap_run

abbrev deleted_world : World
deleted_world = (record { clock = 5; object = none }, world.1)

delete_run :
    delete (noting_deletes api) codec x owner (world, [])
    ≡ (ok tt, (deleted_world, (world, deleted_world) ∷ []))
unfolding delete cm_name text_eq lookup
delete_run = refl

delete-Fenced_example :
    Fenced api codec laws x owner world (deleted_world, (world, deleted_world) ∷ [])
delete-Fenced_example =
    delete-Fenced api codec laws x owner world (deleted_world, (world, deleted_world) ∷ [])
      delete_run

-- The Lease of a holder that last renewed it at second 20, for 30 seconds; the clock stands at second 60.
abbrev expired_lease : Lease
expired_lease = record {
  name = codes "session-lock-x";
  labels = [];
  annotations = [];
  creation_timestamp = 0;
  holder_identity = some (codes "t0");
  lease_duration_seconds = some 30;
  acquire_time = some 20_000_000_000;
  renew_time = some 20_000_000_000;
  resource_version = 3;
}

abbrev held_world : World
held_world = (world.0, record { clock = 3; object = some expired_lease })

abbrev taken_world : World
taken_world = (lock api 30_000_000_000 x (codes "t2") held_world).1

lock_run : lock api 30_000_000_000 x (codes "t2") held_world ≡ (ok tt, taken_world)
unfolding lock lock_name cm_name text_eq lookup insert held_by_us_or_expired lease_for lease_seconds
lock_run = refl

lock-Acquired_example : Acquired api 30_000_000_000 laws x (codes "t2") held_world taken_world
lock-Acquired_example =
    lock-Acquired api 30_000_000_000 laws x (codes "t2") held_world taken_world lock_run
