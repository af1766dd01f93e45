-- ===== src/Store/Records.antt =====
-- control-plane/internal/adapter/configmap/store.go: the operations on session records.
use session_platform.Prelude.{
  ℕ, zero, suc, Bool, not, ◌||◌, Option, none, some, List, [], ◌∷◌, ltb, if◌then◌else◌, Text,
  text_eq, Result, ok, err, Action, pure, raise, lift, ◌>>=◌, ◌>>◌,
}
use session_platform.Session.Errors.{Error, sentinel, wrapped, api, conflict, invalid_input}
use session_platform.Session.Types.{State, state_eq}
use session_platform.Session.Record.{Session, SnapshotTransaction}
use session_platform.Kubernetes.{
  ConfigMap, Api, is_not_found, is_already_exists, is_conflict, respond,
}
use session_platform.Store.Objects.{
  Codec, cm_name, config_map_for, ensure_labels, decode, encode_into, annotation,
  annotation_lifecycle_owner, same_snapshot_transaction, or_missing, or_conflict, put_max_retries,
  label_managed_by, managed_by_value,
}

-- `next` with the later of the two access times.
unfoldable pub replacement : Session → Session → Session
replacement current next =
    if ltb next.last_access current.last_access
    then record next { last_access = current.last_access }
    else next

-- The two tests on the record that was read.
abbrev pub moved : Session → State → Option SnapshotTransaction → Bool
moved current expected_state expected_txn =
    not (state_eq current.state expected_state)
    || not (same_snapshot_transaction current.snapshot_transaction expected_txn)

module _ {W : Type 0} (k8s : Api W) (codec : Codec) where
  -- `ctx.Err()` between two calls.
  abbrev check_context : Action W Error Unit
  check_context w = elim (k8s.ctx_err w) [ none ↦ (ok tt, w) | some e ↦ (err e, w) ]

  -- A write whose result is not looked at but for its error.
  abbrev done : ConfigMap → Action W Error Unit
  done cm = pure tt

  -- `put_loop left` is the round with `attempt = put_max_retries - left`. The first argument of
  -- `put_round` is the next round, none in the last.
  unfoldable pub put_round : Option (Action W Error Unit) → Session → Action W Error Unit
  put_round next s =
      respond (k8s.get_config_map (cm_name s.id))
        (λ existing. do
          cm ← lift (encode_into codec (ensure_labels existing s.id) s)
          respond (k8s.update_config_map cm) done λ e. elim next [
            | none ↦ raise (wrapped (api e))
            | some again ↦ if is_conflict e then again else raise (wrapped (api e))
          ])
        λ e.
          if is_not_found e
          then (do
            cm ← lift (encode_into codec (config_map_for s) s)
            respond (k8s.create_config_map cm) done λ c. elim next [
              | none ↦ raise (wrapped (api c))
              | some again ↦ if is_already_exists c then again else raise (wrapped (api c))
            ])
          else raise (wrapped (api e))

  unfoldable pub put_loop : ℕ → Session → Action W Error Unit
  unfolding put_round
  put_loop zero s = put_round none s
  put_loop (suc left) s = put_round (some (put_loop left s)) s

  unfoldable pub put : Session → Action W Error Unit
  unfolding put_loop
  put = put_loop put_max_retries

  unfoldable pub get : Text → Action W Error Session
  get id =
      respond (k8s.get_config_map (cm_name id)) (λ cm. lift (decode codec cm))
        λ e. raise (or_missing e)

  abbrev decode_all : List ConfigMap → Result Error (List Session)
  decode_all [] = ok []
  decode_all (cm ∷ cms) =
      let rest = decode_all cms in
      elim (decode codec cm) [
        | err e ↦ err e
        | ok s ↦ elim rest [ err e ↦ err e | ok ss ↦ ok (s ∷ ss) ]
      ]

  unfoldable pub list : Action W Error (List Session)
  list =
      respond (k8s.list_config_maps label_managed_by managed_by_value)
        (λ cms. lift (decode_all cms)) λ e. raise (wrapped (api e))

  unfoldable pub touch_round : Option (Action W Error Unit) → Text → ℕ → Action W Error Unit
  touch_round next id at =
      respond (k8s.get_config_map (cm_name id))
        (λ cm. do
          s ← lift (decode codec cm)
          if not (ltb s.last_access at) then pure tt else do
            cm' ← lift (encode_into codec cm (record s { last_access = at }))
            respond (k8s.update_config_map cm') done λ e. elim next [
              | none ↦ raise (or_missing e)
              | some again ↦ if is_conflict e then again else raise (or_missing e)
            ])
        λ e. raise (or_missing e)

  unfoldable pub touch_loop : ℕ → Text → ℕ → Action W Error Unit
  unfolding touch_round
  touch_loop zero id at = touch_round none id at
  touch_loop (suc left) id at = touch_round (some (touch_loop left id at)) id at

  unfoldable pub touch : Text → ℕ → Action W Error Unit
  unfolding touch_loop
  touch = touch_loop put_max_retries

  unfoldable pub delete_read :
      Option (Action W Error Unit) → Text → Text → ConfigMap → Action W Error Unit
  delete_read next id token cm =
      if not (text_eq (annotation annotation_lifecycle_owner cm.annotations) token)
      then raise (sentinel conflict)
      else respond (k8s.delete_config_map (cm_name id) cm.resource_version) pure λ e.
        if is_not_found e then pure tt else elim next [
          | none ↦ raise (or_conflict e)
          | some again ↦ if is_conflict e then again else raise (or_conflict e)
        ]

  unfoldable pub delete_round : Option (Action W Error Unit) → Text → Text → Action W Error Unit
  unfolding delete_read
  delete_round next id token =
      check_context
      >> respond (k8s.get_config_map (cm_name id)) (delete_read next id token)
          λ e. if is_not_found e then pure tt else raise (wrapped (api e))

  unfoldable pub delete_loop : ℕ → Text → Text → Action W Error Unit
  unfolding delete_round
  delete_loop zero id token = delete_round none id token
  delete_loop (suc left) id token = delete_round (some (delete_loop left id token)) id token

  unfoldable pub delete : Text → Text → Action W Error Unit
  unfolding delete_loop
  delete = delete_loop put_max_retries

  unfoldable pub compare_and_swap_state : Text → State → State → Action W Error Unit
  compare_and_swap_state id from to =
      respond (k8s.get_config_map (cm_name id))
        (λ cm. do
          s ← lift (decode codec cm)
          if not (state_eq s.state from) then raise (sentinel conflict) else do
            cm' ← lift (encode_into codec cm (record s { state = to }))
            respond (k8s.update_config_map cm') done λ e. raise (or_conflict e))
        λ e. raise (or_missing e)

  unfoldable pub swap_read :
      Text → Text → State → Option SnapshotTransaction → Session → ConfigMap → Action W Error Unit
  swap_read id token expected_state expected_txn next cm =
      if not (text_eq (annotation annotation_lifecycle_owner cm.annotations) token)
      then raise (sentinel conflict)
      else do
        current ← lift (decode codec cm)
        if moved current expected_state expected_txn then raise (sentinel conflict) else do
          cm' ← lift (encode_into codec cm (replacement current next))
          respond (k8s.update_config_map cm') done
              λ e. if is_conflict e then raise (sentinel conflict) else raise (or_missing e)

  unfoldable pub compare_and_swap_session :
      Text → Text → State → Option SnapshotTransaction → Option Session → Action W Error Unit
  unfolding swap_read
  compare_and_swap_session id token expected_state expected_txn none =
      raise (sentinel invalid_input)
  compare_and_swap_session id token expected_state expected_txn (some next) =
      if not (text_eq next.id id)
      then raise (sentinel invalid_input)
      else respond (k8s.get_config_map (cm_name id))
          (swap_read id token expected_state expected_txn next) λ e. raise (or_missing e)
