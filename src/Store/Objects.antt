-- ===== src/Store/Objects.antt =====
-- control-plane/internal/adapter/configmap/store.go: names, labels and the stored form of a session.
-- `encoding/json` is a parameter: `marshal` and `unmarshal` of the stored envelope.
use session_platform.Prelude.{
  ℕ, ◌/◌, ◌%◌, ◌^◌, Bool, true, false, ◌||◌, ◌&&◌, Option, none, some, List, [], ◌++◌, ltb, leb,
  ◌==◌, if◌then◌else◌, Text, codes, text_eq, lookup, insert, Result, ok, err,
}
use session_platform.Session.Errors.{
  Error, ApiError, sentinel, wrapped, api, not_found, conflict, failed,
}
use session_platform.Session.Types.{phase_eq}
use session_platform.Session.Record.{Session, SnapshotTransaction, Checkpoint}
use session_platform.Kubernetes.{ConfigMap, is_not_found, is_conflict, second}

abbrev pub label_managed_by : Text
label_managed_by = codes "app.kubernetes.io/managed-by"

abbrev pub managed_by_value : Text
managed_by_value = codes "control-plane"

abbrev pub label_session_id : Text
label_session_id = codes "session-id"

abbrev pub annotation_lifecycle_owner : Text
annotation_lifecycle_owner = codes "session-platform.io/lifecycle-owner"

abbrev pub data_key : Text
data_key = codes "session"

abbrev pub put_max_retries : ℕ
put_max_retries = 5

unfoldable pub cm_name : Text → Text
cm_name id = codes "session-" ++ id

unfoldable pub lock_name : Text → Text
lock_name id = codes "session-lock-" ++ id

-- `int32(d / time.Second)`, at least one second.
unfoldable pub lease_seconds : ℕ → ℕ
lease_seconds d = let s = (d / second) % 2 ^ 32 in if leb (2 ^ 31) s || ltb s 1 then 1 else s

pub record StoredSession : Type 0 where
  pub session : Session
  pub snapshot_txn : Option SnapshotTransaction

pub record Codec : Type 0 where
  pub marshal : StoredSession → Result Error Text
  pub unmarshal : Text → Result Error StoredSession

unfoldable pub ensure_labels : ConfigMap → Text → ConfigMap
ensure_labels cm id = record cm {
  labels = insert label_session_id id (insert label_managed_by managed_by_value cm.labels);
}

-- A missing key reads as the empty text.
abbrev pub annotation : Text → List (Text × Text) → Text
annotation key m = elim (lookup key m) [ none ↦ [] | some v ↦ v ]

unfoldable pub config_map_for : Session → ConfigMap
unfolding ensure_labels
config_map_for s =
    ensure_labels
      (record {
        name = cm_name s.id;
        labels = [];
        annotations = [];
        contents = [];
        resource_version = 0;
      })
      s.id

-- The error of a read whose target may be gone.
abbrev pub or_missing : ApiError → Error
or_missing e = if is_not_found e then sentinel not_found else wrapped (api e)

-- The error of an update that another writer may win.
abbrev pub or_conflict : ApiError → Error
or_conflict e = if is_conflict e then sentinel conflict else wrapped (api e)

module _ (codec : Codec) where
  abbrev decode_raw : Option Text → Result Error Session
  decode_raw none = err (failed 0)
  decode_raw (some raw) = elim (codec.unmarshal raw) [
    | err e ↦ err (wrapped e)
    | ok stored ↦ ok (record stored.session { snapshot_transaction = stored.snapshot_txn })
  ]

  unfoldable pub decode : ConfigMap → Result Error Session
  decode cm = decode_raw (lookup data_key cm.contents)

  unfoldable pub encode_into : ConfigMap → Session → Result Error ConfigMap
  encode_into cm s =
      elim (codec.marshal (record { session = s; snapshot_txn = s.snapshot_transaction })) [
        | err e ↦ err (wrapped e)
        | ok raw ↦ ok (record cm { contents = insert data_key raw cm.contents })
      ]

abbrev same_checkpoint : Option Checkpoint → Option Checkpoint → Bool
same_checkpoint none none = true
same_checkpoint none (some b) = false
same_checkpoint (some a) none = false
same_checkpoint (some a) (some b) =
    text_eq a.ref b.ref
    && ((a.size_bytes == b.size_bytes)
        && ((a.created_at == b.created_at) && text_eq a.reclaimed b.reclaimed))

unfoldable pub same_snapshot_transaction :
    Option SnapshotTransaction → Option SnapshotTransaction → Bool
same_snapshot_transaction none none = true
same_snapshot_transaction none (some b) = false
same_snapshot_transaction (some a) none = false
same_snapshot_transaction (some a) (some b) =
    text_eq a.generation b.generation
    && (text_eq a.owner b.owner
        && (text_eq a.source_pod b.source_pod
            && (phase_eq a.phase b.phase && same_checkpoint a.checkpoint b.checkpoint)))
