-- ===== src/Store/Stored.antt =====
-- control-plane/internal/adapter/configmap/store.go: what a stored record reads back as.
use session_platform.Prelude.{
  ℕ, ◌≡◌, refl, Bool, true, not, ◌&&◌, ◌||◌, ltb, leb, all, any, Option, List, [], ◌∷◌, ◌++◌, none,
  some, Text, codes, text_eq, insert, lookup-insert, text_eq_refl, arith, Result, ok, err,
}
use session_platform.Session.Types.{WorkloadType, State, Phase, unknown}
use session_platform.Session.Errors.{Error}
use session_platform.Session.Record.{Session, SnapshotTransaction, Checkpoint}
use session_platform.Kubernetes.{ConfigMap}
use session_platform.Store.Objects.{Codec, StoredSession, decode, encode_into, data_key}

-- The fields tagged `json:"-"`.
abbrev hide : Option Checkpoint → Option Checkpoint
hide none = none
hide (some c) = some (record c { abort_token = [] })

abbrev hide_transaction : Option SnapshotTransaction → Option SnapshotTransaction
hide_transaction none = none
hide_transaction (some t) = some (record t { checkpoint = hide t.checkpoint })

-- `omitempty` of a slice: an empty selection is left out, and then reads back as none.
abbrev omit_empty : Option (List Text) → Option (List Text)
omit_empty none = none
omit_empty (some []) = none
omit_empty (some (name ∷ names)) = some (name ∷ names)

-- What survives a round through the store: all but the transient abort tokens and a selection of no plugins.
abbrev pub durable : Session → Session
durable s = record s {
  plugins = omit_empty s.plugins;
  checkpoint = hide s.checkpoint;
  snapshot_transaction = hide_transaction s.snapshot_transaction;
}

abbrev pub public : StoredSession → StoredSession
public stored = record {
  session = record stored.session {
    plugins = omit_empty stored.session.plugins;
    checkpoint = hide stored.session.checkpoint;
    snapshot_transaction = none;
  };
  snapshot_txn = hide_transaction stored.snapshot_txn;
}

-- A Unicode scalar value: encoding/json replaces anything else in a string.
abbrev is_scalar : ℕ → Bool
is_scalar c = ltb c 55296 || (leb 57344 c && ltb c 1114112)

abbrev is_text : Text → Bool
is_text = all is_scalar

abbrev is_unlisted : Text → List Text → Bool
is_unlisted t names = is_text t && not (any (text_eq t) names)

-- A value that is none of the named ones has a text of its own.
abbrev is_storable_type : WorkloadType → Bool
is_storable_type (WorkloadType.other t) = is_unlisted t (
    []
    ∷ codes "shell"
    ∷ codes "claude-code"
    ∷ codes "approval-gated"
    ∷ codes "minimax-code"
    ∷ codes "codex-chat"
    ∷ codes "codex-task"
    ∷ codes "codex"
    ∷ [])
is_storable_type _ = true

abbrev is_storable_state : State → Bool
is_storable_state (State.other t) =
    is_unlisted t (codes "active" ∷ codes "idle" ∷ codes "snapshot" ∷ [])
is_storable_state _ = true

abbrev is_storable_phase : Phase → Bool
is_storable_phase (unknown t) = is_unlisted t (codes "preparing" ∷ codes "committing" ∷ [])
is_storable_phase _ = true

abbrev is_storable_checkpoint : Option Checkpoint → Bool
is_storable_checkpoint none = true
is_storable_checkpoint (some c) = is_text c.ref && is_text c.reclaimed

abbrev is_storable_transaction : Option SnapshotTransaction → Bool
is_storable_transaction none = true
is_storable_transaction (some t) =
    all is_text (t.generation ∷ t.owner ∷ t.source_pod ∷ [])
    && (is_storable_phase t.phase && is_storable_checkpoint t.checkpoint)

abbrev plugin_names : Option (List Text) → List Text
plugin_names none = []
plugin_names (some names) = names

-- The sessions that Go can hold in valid strings.
unfoldable pub is_storable : Session → Bool
is_storable s =
    all is_text (
      s.id
      ∷ s.model
      ∷ s.reasoning_effort
      ∷ s.tenant
      ∷ s.name
      ∷ s.pod
      ∷ (s.auxiliary_pods ++ plugin_names s.plugins))
    && (is_storable_type s.workload_type
        && (is_storable_state s.state
            && (is_storable_checkpoint s.checkpoint
                && is_storable_transaction s.snapshot_transaction)))

-- What the code relies on of `encoding/json`: a marshalled envelope of valid strings reads back, without the fields
-- that are tagged out and without an empty selection.
pub record RoundTrips (codec : Codec) : Type 0 where
  pub unmarshal-marshal :
      (s : Session) (raw : Text)
      → is_storable s ≡ true
      → codec.marshal (record { session = s; snapshot_txn = s.snapshot_transaction }) ≡ ok raw
      → codec.unmarshal raw
        ≡ ok (public (record { session = s; snapshot_txn = s.snapshot_transaction }))

module _ (codec : Codec) where
  pub record Encoded (cm new : ConfigMap) (s : Session) : Type 0 where
    pub raw : Text
    pub marshalled :
        codec.marshal (record { session = s; snapshot_txn = s.snapshot_transaction }) ≡ ok raw
    pub entered : new ≡ record cm { contents = insert data_key raw cm.contents }

  pub encode_into-Encoded :
      (cm new : ConfigMap) (s : Session) → encode_into codec cm s ≡ ok new → Encoded cm new s
  unfolding encode_into
  encode_into-Encoded cm new s h =
      marshalled (codec.marshal (record { session = s; snapshot_txn = s.snapshot_transaction }))
        refl h
    where
      marshalled :
          (r : Result Error Text)
          → codec.marshal (record { session = s; snapshot_txn = s.snapshot_transaction }) ≡ r
          → elim r [
            | err e ↦ err (Error.wrapped e)
            | ok raw ↦ ok (record cm { contents = insert data_key raw cm.contents })
          ]
            ≡ ok new
          → Encoded cm new s
      marshalled (ok raw) e h = record { raw = raw; marshalled = e; entered = cc }
      marshalled (err c) e h = cc

-- A session of valid strings that is written under the data key of a ConfigMap is read back as the same session, its
-- private transaction included, less the transient abort tokens, and with an empty selection of plugins as
-- none; whatever else the ConfigMap holds.
pub decode-encode_into :
    (codec : Codec) (cm new stored : ConfigMap) (s : Session)
    → RoundTrips codec
    → is_storable s ≡ true
    → encode_into codec cm s ≡ ok new
    → stored.contents ≡ new.contents
    → decode codec stored ≡ ok (durable s)
unfolding decode
decode-encode_into codec cm new stored s trips valid h same =
    let e = encode_into-Encoded codec cm new s h in
    rw (same, e.entered, lookup-insert, text_eq_refl)
      (ground (arith, trips.unmarshal-marshal s e.raw valid e.marshalled))
