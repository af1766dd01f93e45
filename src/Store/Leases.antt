-- ===== src/Store/Leases.antt =====
-- control-plane/internal/adapter/configmap/store.go: the occupancy lock of a session, on a Lease.
use session_platform.Prelude.{
  ℕ, zero, suc, ◌+◌, ◌*◌, Bool, true, false, not, ◌||◌, Option, none, some, [], ◌∷◌, ltb,
  if◌then◌else◌, Text, text_eq, insert, ok, err, Action, pure, raise, attempt, ignore, ◌>>=◌, ◌>>◌,
}
use session_platform.Session.Errors.{Error, sentinel, wrapped, api, conflict}
use session_platform.Kubernetes.{
  Lease, Api, is_not_found, is_already_exists, is_conflict, respond, second,
}
use session_platform.Store.Objects.{
  cm_name, lock_name, lease_seconds, annotation, annotation_lifecycle_owner, or_conflict,
  put_max_retries, label_managed_by, managed_by_value, label_session_id,
}

-- `HolderIdentity != nil && *HolderIdentity == token`.
abbrev pub holds : Lease → Text → Bool
holds lease token = elim lease.holder_identity [ none ↦ false | some h ↦ text_eq h token ]

abbrev pub past_deadline : Option ℕ → Option ℕ → ℕ → Bool
past_deadline none dur now = false
past_deadline (some renewed) none now = false
past_deadline (some renewed) (some dur) now = ltb (renewed + dur * second) now

unfoldable pub held_by_us_or_expired : Lease → Text → ℕ → Bool
held_by_us_or_expired lease token now =
    if holds lease token
    then true
    else past_deadline lease.renew_time lease.lease_duration_seconds now

module _ {W : Type 0} (k8s : Api W) (lease_dur : ℕ) where
  abbrev pub check_context : Action W Error Unit
  check_context w = elim (k8s.ctx_err w) [ none ↦ (ok tt, w) | some e ↦ (err e, w) ]

  unfoldable pub lease_for : Text → Text → ℕ → Lease
  lease_for id token now = record {
    name = lock_name id;
    labels = (label_managed_by, managed_by_value) ∷ (label_session_id, id) ∷ [];
    annotations = [];
    creation_timestamp = 0;
    holder_identity = some token;
    lease_duration_seconds = some (lease_seconds lease_dur);
    acquire_time = some now;
    renew_time = some now;
    resource_version = 0;
  }

  unfoldable pub renew_read : Text → Lease → Action W Error Unit
  renew_read token existing w =
      if not (holds existing token)
      then raise (sentinel conflict) w
      else respond
          (k8s.update_lease (record existing {
            renew_time = some (k8s.now w);
            lease_duration_seconds = some (lease_seconds lease_dur);
          }))
          (λ l. pure tt)
          (λ e.
            if is_conflict e || is_not_found e
            then raise (sentinel conflict)
            else raise (wrapped (api e)))
          w

  unfoldable pub renew : Text → Text → Action W Error Unit
  unfolding renew_read
  renew id token =
      respond (k8s.get_lease (lock_name id)) (renew_read token)
        λ e. if is_not_found e then raise (sentinel conflict) else raise (wrapped (api e))

  unfoldable pub unlock_read : Text → Text → Lease → Action W Error Unit
  unlock_read id token existing =
      if not (holds existing token)
      then pure tt
      else respond (k8s.delete_lease (lock_name id) existing.resource_version) pure
          λ e. if is_not_found e || is_conflict e then pure tt else raise (wrapped (api e))

  unfoldable pub unlock : Text → Text → Action W Error Unit
  unfolding unlock_read
  unlock id token =
      respond (k8s.get_lease (lock_name id)) (unlock_read id token)
        λ e. if is_not_found e then pure tt else raise (wrapped (api e))

  -- One round of `claimLifecycleOwner`; the first argument is the next round, none in the last.
  unfoldable pub claim_round : Option (Action W Error Unit) → Text → Text → Action W Error Unit
  unfolding renew
  claim_round next id token =
      check_context
      >> respond (k8s.get_config_map (cm_name id))
          (λ cm.
            if text_eq (annotation annotation_lifecycle_owner cm.annotations) token
            then renew id token
            else do
              renew id token
              respond
                  (k8s.update_config_map (record cm {
                    annotations = insert annotation_lifecycle_owner token cm.annotations;
                  }))
                  (λ c. renew id token)
                  λ e. if is_not_found e then pure tt else elim next [
                    | none ↦ raise (or_conflict e)
                    | some again ↦ if is_conflict e then again else raise (or_conflict e)
                  ])
          λ e. if is_not_found e then pure tt else raise (wrapped (api e))

  unfoldable pub claim_loop : ℕ → Text → Text → Action W Error Unit
  unfolding claim_round
  claim_loop zero id token = claim_round none id token
  claim_loop (suc left) id token = claim_round (some (claim_loop left id token)) id token

  unfoldable pub claim_lifecycle_owner : Text → Text → Action W Error Unit
  unfolding claim_loop
  claim_lifecycle_owner = claim_loop put_max_retries

  unfoldable pub finish_lock : Text → Text → Action W Error Unit
  unfolding claim_lifecycle_owner unlock
  finish_lock id token = do
    claimed ← attempt (claim_lifecycle_owner id token)
    elim claimed [ ok done ↦ pure tt | err e ↦ ignore (unlock id token) >> raise e ]

  unfoldable pub take_over : Text → Text → Lease → Action W Error Unit
  unfolding finish_lock
  take_over id token existing w =
      if not (held_by_us_or_expired existing token (k8s.now w))
      then raise (sentinel conflict) w
      else respond
          (k8s.update_lease (record existing {
            holder_identity = some token;
            acquire_time = some (k8s.now w);
            renew_time = some (k8s.now w);
            lease_duration_seconds = some (lease_seconds lease_dur);
          }))
          (λ l. finish_lock id token) (λ e. raise (or_conflict e)) w

  -- `now` is read before the Lease is created.
  unfoldable pub lock : Text → Text → Action W Error Unit
  unfolding finish_lock take_over
  lock id token w =
      respond (k8s.create_lease (lease_for id token (k8s.now w))) (λ l. finish_lock id token)
        (λ c.
          if not (is_already_exists c)
          then raise (wrapped (api c))
          else respond (k8s.get_lease (lock_name id)) (take_over id token)
              λ e. if is_not_found e then raise (sentinel conflict) else raise (wrapped (api e)))
        w
