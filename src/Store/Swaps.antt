-- ===== src/Store/Swaps.antt =====
-- control-plane/internal/adapter/configmap/store.go: the compare-and-swap of a whole session.
use session_platform.Prelude.{
  ◌≡◌, ap, ◌∙◌, ◌≤◌, inl, inr, Bool, true, false, ltb, if◌then◌else◌, Option, some, Text,
  text_eq_iff, arith, ok, Result-cases, run-cases,
}
use session_platform.Session.Types.{State, state_eq}
use session_platform.Session.Record.{Session, SnapshotTransaction}
use session_platform.Kubernetes.{ConfigMap, Api}
use session_platform.Kubernetes.Versions.{Versioned, Seen, config_map-old}
use session_platform.Store.Objects.{
  Codec, cm_name, decode, encode_into, annotation, annotation_lifecycle_owner,
  same_snapshot_transaction,
}
use session_platform.Store.Records.{compare_and_swap_session, swap_read, replacement, moved}
use session_platform.Store.Stored.{RoundTrips, is_storable, durable, decode-encode_into}

module _ {W : Type 0} (k8s : Api W) (codec : Codec) where
  record Read (id token : Text) (expected_state : State) (expected_txn : Option SnapshotTransaction)
      (next : Session) (cm : ConfigMap) (w w' : W) : Type 0 where
    current : Session
    target : ConfigMap
    answer : ConfigMap
    owned : annotation annotation_lifecycle_owner cm.annotations ≡ token
    decoded : decode codec cm ≡ ok current
    unmoved : moved current expected_state expected_txn ≡ false
    encoded : encode_into codec cm (replacement current next) ≡ ok target
    updated : k8s.update_config_map target w ≡ (ok answer, w')

  swap_read-Read :
      (id token : Text) (expected_state : State) (expected_txn : Option SnapshotTransaction)
      (next : Session) (cm : ConfigMap) (w w' : W)
      → swap_read k8s codec id token expected_state expected_txn next cm w ≡ (ok tt, w')
      → Read id token expected_state expected_txn next cm w w'
  unfolding swap_read
  swap_read-Read id token expected_state expected_txn next cm w w' h =
      elim (Result-cases (decode codec cm)) [
        | inr (c, e) ↦ absurd (ground arith)
        | inl (current, decoded) ↦
            elim (Result-cases (encode_into codec cm (replacement current next))) [
              | inr (c, e) ↦ absurd (ground arith)
              | inl (target, encoded) ↦ elim (run-cases (k8s.update_config_map target) w) [
                | inr (c, v, e) ↦ absurd (ground arith)
                | inl (answer, v, updated) ↦ record {
                  current = current;
                  target = target;
                  answer = answer;
                  owned = ground (
                    arith,
                    text_eq_iff (annotation annotation_lifecycle_owner cm.annotations) token,
                  );
                  decoded = decoded;
                  unmoved = ground arith;
                  encoded = encoded;
                  updated = ground arith;
                }
              ]
            ]
      ]

  -- The one write of the call: what stood there before it and what after.
  pub record Swapped (laws : Versioned k8s) (id token : Text) (expected_state : State)
      (expected_txn : Option SnapshotTransaction) (next : Session) (w w' : W) : Type 0 where
    pub current : Session
    pub before : W
    pub behind : W
    pub replaced : ConfigMap
    pub after : ConfigMap
    pub started : laws.Later w before
    pub happened : laws.Next before behind
    pub returned : laws.Later behind w'
    pub stored : laws.config_map before (cm_name id) ≡ some replaced
    pub owned : annotation annotation_lifecycle_owner replaced.annotations ≡ token
    pub decoded : decode codec replaced ≡ ok current
    pub in_state : state_eq current.state expected_state ≡ true
    pub in_transaction : same_snapshot_transaction current.snapshot_transaction expected_txn ≡ true
    pub written : laws.config_map behind (cm_name id) ≡ some after
    pub reads_back : decode codec after ≡ ok (durable (replacement current next))
    pub monotone :
        (current.last_access ≤ (replacement current next).last_access)
        × (next.last_access ≤ (replacement current next).last_access)

  replacement_monotone :
      (current next : Session)
      → (current.last_access ≤ (replacement current next).last_access)
        × (next.last_access ≤ (replacement current next).last_access)
  unfolding replacement
  replacement_monotone current next = ground arith

  encode_into-name :
      (cm new : ConfigMap) (s : Session)
      → encode_into codec cm s ≡ ok new
      → (new.name ≡ cm.name) × (new.resource_version ≡ cm.resource_version)
  unfolding encode_into
  encode_into-name cm new s h = ground arith

  replacement_storable :
      (current next : Session)
      → is_storable next ≡ true
      → is_storable (replacement current next) ≡ true
  unfolding replacement is_storable
  replacement_storable current next valid = by_test (ltb next.last_access current.last_access)
    where
      by_test :
          (b : Bool)
          → is_storable (if b then record next { last_access = current.last_access } else next)
            ≡ true
      by_test true = valid
      by_test false = valid

  swapped_lem :
      (laws : Versioned k8s) (trips : RoundTrips codec) (id token : Text) (expected_state : State)
      (expected_txn : Option SnapshotTransaction) (next : Session) (cm : ConfigMap) (w v w' : W)
      → is_storable next ≡ true
      → Seen laws.Later laws.config_map (cm_name id) w v cm
      → cm.name ≡ cm_name id
      → Read id token expected_state expected_txn next cm v w'
      → Swapped laws id token expected_state expected_txn next w w'
  swapped_lem laws trips id token expected_state expected_txn next cm w v w' valid seen named r =
      let (won, same) =
        laws.update_config_map_lem (cm_name id) cm.resource_version r.target r.answer v w'
          (cc (encode_into-name cm r.target _ r.encoded).0)
          (encode_into-name cm r.target _ r.encoded).1 r.updated in
      record {
        current = r.current;
        before = won.at;
        behind = won.next;
        replaced = cm;
        after = r.answer;
        started =
            laws.later_trans w v won.at (laws.later_trans w seen.at v seen.started seen.returned)
              won.started;
        happened = won.happened;
        returned = won.returned;
        stored = won.stored ∙ ap some (config_map-old laws (cm_name id) w v w' cm seen won);
        owned = r.owned;
        decoded = r.decoded;
        in_state = ground (arith, r.unmoved);
        in_transaction = ground (arith, r.unmoved);
        written = won.left;
        reads_back =
            decode-encode_into codec cm r.target r.answer _ trips
              (replacement_storable r.current next valid) r.encoded same;
        monotone = replacement_monotone r.current next;
      }

-- A compare-and-swap that reports success is atomic, whatever other replicas do meanwhile: it is one write between the
-- call's start and its end. Just before this write the stored ConfigMap carried the caller's token as lifecycle
-- owner and held a session in the expected state and transaction; just after it, what stands in its place
-- reads back as the new record with the later of both access times. The new record's strings must be valid.
pub compare_and_swap_session-Swapped :
    {W : Type 0} (k8s : Api W) (codec : Codec) (laws : Versioned k8s) (id token : Text)
    (expected_state : State) (expected_txn : Option SnapshotTransaction) (next : Session) (w w' : W)
    → RoundTrips codec
    → is_storable next ≡ true
    → compare_and_swap_session k8s codec id token expected_state expected_txn (some next) w
      ≡ (ok tt, w')
    → Swapped k8s codec laws id token expected_state expected_txn next w w'
unfolding compare_and_swap_session
compare_and_swap_session-Swapped k8s codec laws id token expected_state expected_txn next w w' trips
      valid h =
    elim (run-cases (k8s.get_config_map (cm_name id)) w) [
      | inr (c, v, e) ↦ absurd (ground arith)
      | inl (cm, v, e) ↦
          let (seen, named) = laws.get_config_map_lem (cm_name id) w v cm e in
          swapped_lem k8s codec laws trips id token expected_state expected_txn next cm w v w' valid
            seen named
            (swap_read-Read k8s codec id token expected_state expected_txn next cm v w'
              (unfold swap_read in ground arith))
    ]
