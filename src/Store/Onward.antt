-- ===== src/Store/Onward.antt =====
-- control-plane/internal/adapter/configmap/store.go: what follows the grant of a lock, the claim of the record and the
-- return of the lock where this claim fails, only moves on in time.
use session_platform.Prelude.{
  ℕ, zero, suc, ◌≡◌, subst, Bool, true, false, not, ◌||◌, Option, none, some, Text, text_eq, insert,
  Result, ok, err, Action, pure, raise, ignore, ◌>>◌, if◌then◌else◌,
}
use session_platform.Prelude.Keeps.{
  Keeps, Keeps-bind, Keeps-pure, Keeps-raise, Keeps-attempt, Keeps-ignore, Leads-if,
}
use session_platform.Session.Errors.{Error, ApiError, sentinel, wrapped, api, conflict}
use session_platform.Kubernetes.{
  ConfigMap, Lease, Api, respond, dispatch, is_not_found, is_conflict,
}
use session_platform.Kubernetes.Versions.{Versioned}
use session_platform.Store.Objects.{
  cm_name, lock_name, annotation, annotation_lifecycle_owner, put_max_retries, lease_seconds,
}
use session_platform.Store.Leases.{
  holds, renew_read, renew, unlock_read, unlock, claim_round, claim_loop, claim_lifecycle_owner,
  finish_lock, check_context,
}

module _ {W : Type 0} (k8s : Api W) (lease_dur : ℕ) (laws : Versioned k8s) (start : W) where
  abbrev After : W → Type 0
  After w = laws.Later start w

  Keeps-respond :
      {A B : Type 0} (m : Action W ApiError A) {done : A → Action W Error B}
      {fault : ApiError → Action W Error B}
      → ((w : W) → laws.Later w (m w).1)
      → ((a : A) → Keeps After (done a))
      → ((e : ApiError) → Keeps After (fault e))
      → Keeps After (respond m done fault)
  Keeps-respond {A} {B} m {done} {fault} km kd kf = record {
    at = λ w h. next (m w).0 (m w).1 (laws.later_trans start w (m w).1 h (km w));
  }
    where
      next : (r : Result ApiError A) (v : W) → After v → After (dispatch r done fault v).1
      next (ok a) v h = (kd a).at v h
      next (err e) v h = (kf e).at v h

  check_context-Keeps : Keeps After (check_context k8s lease_dur)
  check_context-Keeps = record { at = λ w h. by_context w h (k8s.ctx_err w) }
    where
      by_context :
          (w : W)
          → After w
          → (o : Option Error)
          → After
              (elim o as (λ x. Result Error Unit × W) [ none ↦ (ok tt, w) | some e ↦ (err e, w) ]).1
      by_context w h none = h
      by_context w h (some e) = h

  renew_read-Keeps : (token : Text) (l : Lease) → Keeps After (renew_read k8s lease_dur token l)
  unfolding renew_read
  renew_read-Keeps token l = record { at = λ w h. by_holder w h (not (holds l token)) }
    where
      renewed : W → Lease
      renewed w = record l {
        renew_time = some (k8s.now w);
        lease_duration_seconds = some (lease_seconds lease_dur);
      }

      answered :
          (w : W)
          → Keeps After (
              respond
                (k8s.update_lease (renewed w))
                (λ l. pure tt)
                λ e.
                  if is_conflict e || is_not_found e
                  then raise {A = Unit} (sentinel conflict)
                  else raise (wrapped (api e)))
      answered w =
          Keeps-respond (k8s.update_lease (renewed w)) (laws.update_lease_later (renewed w))
            (λ a. Keeps-pure tt)
            λ e. Leads-if (is_conflict e || is_not_found e) (λ t. Keeps-raise _) λ t. Keeps-raise _

      by_holder :
          (w : W)
          → After w
          → (b : Bool)
          → After
              (if b
                then raise {A = Unit} (sentinel conflict) w
                else respond
                    (k8s.update_lease (renewed w))
                    (λ l. pure tt)
                    (λ e.
                      if is_conflict e || is_not_found e
                      then raise (sentinel conflict)
                      else raise (wrapped (api e)))
                    w).1
      by_holder w h true = h
      by_holder w h false = (answered w).at w h

  renew-Keeps : (id token : Text) → Keeps After (renew k8s lease_dur id token)
  unfolding renew
  renew-Keeps id token =
      Keeps-respond (k8s.get_lease (lock_name id)) (laws.get_lease_later (lock_name id))
        (λ l. renew_read-Keeps token l)
        λ e. Leads-if (is_not_found e) (λ t. Keeps-raise _) λ t. Keeps-raise _

  unlock-Keeps : (id token : Text) → Keeps After (unlock k8s lease_dur id token)
  unfolding unlock unlock_read
  unlock-Keeps id token =
      Keeps-respond (k8s.get_lease (lock_name id)) (laws.get_lease_later (lock_name id))
        (λ l.
          Leads-if (not (holds l token)) (λ t. Keeps-pure tt)
            λ t.
              Keeps-respond (k8s.delete_lease (lock_name id) l.resource_version)
                (laws.delete_lease_later (lock_name id) l.resource_version) (λ a. Keeps-pure a)
                λ e.
                  Leads-if (is_not_found e || is_conflict e) (λ t. Keeps-pure tt)
                    λ t. Keeps-raise _)
        λ e. Leads-if (is_not_found e) (λ t. Keeps-pure tt) λ t. Keeps-raise _

  Retried : Option (Action W Error Unit) → Type 0
  Retried none = Unit
  Retried (some again) = Keeps After again

  retry-Keeps :
      (next : Option (Action W Error Unit)) (b : Bool) (fault : Error)
      → Retried next
      → Keeps After (elim next as (λ x. Action W Error Unit) [
        | none ↦ raise fault
        | some again ↦ if b then again else raise fault
      ])
  unfolding Retried
  retry-Keeps none b fault k = Keeps-raise fault
  retry-Keeps (some again) b fault k = Leads-if b (λ t. k) λ t. Keeps-raise fault

  claim_round-Keeps :
      (next : Option (Action W Error Unit)) (id token : Text)
      → Retried next
      → Keeps After (claim_round k8s lease_dur next id token)
  unfolding claim_round
  claim_round-Keeps next id token k = Keeps-bind check_context-Keeps λ t.
      Keeps-respond (k8s.get_config_map (cm_name id)) (laws.get_config_map_later (cm_name id))
        (λ cm.
          Leads-if (text_eq (annotation annotation_lifecycle_owner cm.annotations) token)
            (λ t. renew-Keeps id token)
            λ t. Keeps-bind (renew-Keeps id token) λ r.
              Keeps-respond (k8s.update_config_map (claimed cm))
                (laws.update_config_map_later (claimed cm)) (λ c. renew-Keeps id token)
                λ e.
                  Leads-if (is_not_found e) (λ t. Keeps-pure tt)
                    λ t. retry-Keeps next (is_conflict e) _ k)
        λ e. Leads-if (is_not_found e) (λ t. Keeps-pure tt) λ t. Keeps-raise _
    where
      claimed : ConfigMap → ConfigMap
      claimed cm = record cm {
        annotations = insert annotation_lifecycle_owner token cm.annotations;
      }

  claim_loop-Keeps :
      (left : ℕ) (id token : Text) → Keeps After (claim_loop k8s lease_dur left id token)
  unfolding claim_loop Retried
  claim_loop-Keeps zero id token = claim_round-Keeps none id token tt
  claim_loop-Keeps (suc left) id token =
      claim_round-Keeps (some (claim_loop k8s lease_dur left id token)) id token
        (claim_loop-Keeps left id token)

  finish_lock-Keeps : (id token : Text) → Keeps After (finish_lock k8s lease_dur id token)
  unfolding finish_lock claim_lifecycle_owner
  finish_lock-Keeps id token =
      Keeps-bind (Keeps-attempt (claim_loop-Keeps put_max_retries id token))
        λ claimed. by_claim claimed
    where
      by_claim :
          (claimed : Result Error Unit)
          → Keeps After (elim claimed as (λ x. Action W Error Unit) [
            | ok done ↦ pure tt
            | err e ↦ ignore (unlock k8s lease_dur id token) >> raise e
          ])
      by_claim (ok done) = Keeps-pure tt
      by_claim (err e) = Keeps-bind (Keeps-ignore (unlock-Keeps id token)) λ t. Keeps-raise e

-- A run after which the lock is finished ends later than where it was finished from.
pub finished-later :
    {W : Type 0} (k8s : Api W) (lease_dur : ℕ) (laws : Versioned k8s) (id token : Text) (u w' : W)
    → finish_lock k8s lease_dur id token u ≡ (ok tt, w')
    → laws.Later u w'
finished-later k8s lease_dur laws id token u w' h =
    subst (λ (p : Result Error Unit × _). laws.Later u p.1) h
      ((finish_lock-Keeps k8s lease_dur laws u id token).at u (laws.later_refl u))
