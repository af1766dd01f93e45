-- ===== src/Service/Deletion.antt =====
-- control-plane/internal/service/manager.go: `Terminate` on noted ports.
use session_platform.Prelude.{
  ◌≡◌, refl, Bool, true, false, not, ◌&&◌, ◌||◌, any, Option, List, [], ◌∷◌, Text, is_empty,
  text_eq, text_eq_iff, arith, Result, ok, err, ◌>>◌,
}
use session_platform.Session.Errors.{Error}
use session_platform.Session.Record.{Session, pods}
use session_platform.Session.Types.{WorkloadType}
use session_platform.Pods.{PodRef}
use session_platform.Service.Ports.{Ports}
use session_platform.Service.Observed.{Trace, Event, reads, stops, deletes, observed}
use session_platform.Service.Slots.{auth_slot_signed_in, release_auth_slot_best_effort}
use session_platform.Service.Helpers.{
  get, check_context, unlock_best_effort, normalize_stored_session, session_reclaim_refs,
  session_pod_refs,
}
use session_platform.Prelude.Runs.{Runs, Runs-bind, Runs-if, Runs-from}
use session_platform.Service.Terminate.{
  source_pod, claim_transaction, stop_each, terminate_locked, terminate_under_lock, terminate,
}

abbrev is_stop_of_pod : Text → Event → Bool
is_stop_of_pod name (stops (r ∷ []) true) = text_eq r.name name
is_stop_of_pod name _ = false

abbrev is_delete : Event → Bool
is_delete (deletes token b) = true
is_delete _ = false

abbrev rev_onto : List PodRef → List PodRef → List PodRef
rev_onto [] ys = ys
rev_onto (x ∷ xs) ys = rev_onto xs (x ∷ ys)

-- Each pod that has a name was stopped by a call of its own, and the call succeeded.
abbrev pub all_stopped : List PodRef → Trace → Bool
all_stopped [] t = true
all_stopped (r ∷ rs) t =
    let rest = all_stopped rs t in (is_empty r.name || any (is_stop_of_pod r.name) t) && rest

abbrev pub asked_delete : Trace → Bool
asked_delete = any is_delete

all_stopped-cons :
    (refs : List PodRef) (e : Event) (t : Trace)
    → all_stopped refs t ≡ true
    → all_stopped refs (e ∷ t) ≡ true
all_stopped-cons [] e t h = refl
all_stopped-cons (r ∷ rs) e t h = ground (arith, h, all_stopped-cons rs e t)

-- The pods of the record that was read last.
abbrev pub target_refs : Trace → List PodRef
target_refs [] = []
target_refs (reads sess ∷ t) = session_reclaim_refs sess (source_pod sess.snapshot_transaction)
target_refs (e ∷ t) = target_refs t

-- If a deletion was asked for, each pod of the record was stopped.
abbrev pub stopped_for_delete : Trace → Bool
stopped_for_delete t = not (asked_delete t) || all_stopped (target_refs t) t

module _ {W : Type 0} where
  abbrev Untouched : List PodRef → W × Trace → Type 0
  Untouched refs s = (target_refs s.1 ≡ refs) × (asked_delete s.1 ≡ false)

  -- The pods of `before` were stopped already.
  abbrev Stopped : List PodRef → List PodRef → W × Trace → Type 0
  Stopped refs before s = Untouched refs s × (all_stopped before s.1 ≡ true)

  abbrev AfterStop : List PodRef → List PodRef → Result Error Unit × (W × Trace) → Type 0
  AfterStop refs gone (ok t, s) = Stopped refs gone s
  AfterStop refs gone (err e, s) = asked_delete s.1 ≡ false

  abbrev Returned : {A : Type 0} → List PodRef → Result Error A × (W × Trace) → Type 0
  Returned refs (r, s) = Untouched refs s

  abbrev Deleted : {A : Type 0} → Result Error A × (W × Trace) → Type 0
  Deleted (r, s) = stopped_for_delete s.1 ≡ true

module _ {W : Type 0} (ports : Ports W) (refs : List PodRef) where
  stop_one-Runs :
      (r : PodRef) (before : List PodRef)
      → Runs
          (Stopped refs before)
          (AfterStop refs (r ∷ before))
          ((observed ports).orch.stop (r ∷ []))
  stop_one-Runs r before = record {
    at = λ s h. grind (arith, all_stopped-cons before, (text_eq_iff r.name r.name).1 refl);
  }

  check_context-Runs :
      (before : List PodRef)
      → Runs (Stopped refs before) (AfterStop refs before) (check_context (observed ports))
  check_context-Runs before = record { at = λ s h. ground arith }

  -- Whatever is left to stop, those stopped before stay so.
  stop_each-Runs :
      (rest before : List PodRef)
      → Runs
          (Stopped refs before)
          (AfterStop refs (rev_onto rest before))
          (stop_each (observed ports) rest)
  unfolding stop_each
  stop_each-Runs [] before = record { at = λ s h. h }
  stop_each-Runs (r ∷ rs) before =
      Runs-if (is_empty r.name)
        (λ nameless. Runs-from (stop_each-Runs rs (r ∷ before)) λ s h. ground (arith, h, nameless))
        λ pod.
          Runs-bind (AfterStop refs (r ∷ before)) (stop_one-Runs r before) (λ e v h. h)
            λ t.
              Runs-bind (AfterStop refs (r ∷ before)) (check_context-Runs (r ∷ before)) (λ e v h. h)
                λ t. stop_each-Runs rs (r ∷ before)

all_stopped-rev_onto :
    (xs ys : List PodRef) (t : Trace)
    → all_stopped (rev_onto xs ys) t ≡ true
    → (all_stopped xs t ≡ true) × (all_stopped ys t ≡ true)
all_stopped-rev_onto [] ys t h = (refl, h)
all_stopped-rev_onto (x ∷ xs) ys t h = ground (arith, all_stopped-rev_onto xs (x ∷ ys) t h)

module _ {W : Type 0} (ports : Ports W) where
  abbrev Found : Result Error Session × (W × Trace) → Type 0
  Found (ok sess, s) =
      Untouched (session_reclaim_refs sess (source_pod sess.snapshot_transaction)) s
  Found (err e, s) = asked_delete s.1 ≡ false

  get-Runs : (id : Text) → Runs (λ s. asked_delete s.1 ≡ false) Found (get (observed ports) id)
  unfolding get normalize_stored_session session_reclaim_refs session_pod_refs pods
  get-Runs id = record { at = λ s h. ground arith }

  claim_transaction-Runs :
      (id token : Text) (sess : Session)
      → Runs
          (Untouched (session_reclaim_refs sess (source_pod sess.snapshot_transaction)))
          Found
          (claim_transaction (observed ports) id token sess)
  unfolding claim_transaction session_reclaim_refs session_pod_refs pods
  claim_transaction-Runs id token sess = record { at = λ s h. ground arith }

  signed_in-Runs :
      (refs : List PodRef) (sess : Session)
      → Runs (Untouched refs) (Returned refs) (auth_slot_signed_in (observed ports) sess)
  unfolding auth_slot_signed_in
  signed_in-Runs refs sess = record { at = λ s h. ground arith }

  delete-Runs :
      (id token : Text) (workload : WorkloadType) (signed_in : Option Bool) (refs : List PodRef)
      → Runs (Stopped refs (rev_onto refs [])) Deleted (
          (observed ports).store.delete id token
          >> release_auth_slot_best_effort (observed ports) workload id signed_in)
  unfolding release_auth_slot_best_effort
  delete-Runs id token workload signed_in refs = record {
    at = λ s h. grind (arith, h, all_stopped-cons, (all_stopped-rev_onto refs [] s.1 h.1).0);
  }

  terminate_locked-Runs :
      (id token : Text)
      → Runs (λ s. asked_delete s.1 ≡ false) Deleted (terminate_locked (observed ports) id token)
  unfolding terminate_locked
  terminate_locked-Runs id token =
      Runs-bind Found (get-Runs id) (λ e v h. no_delete v h)
        λ found.
          Runs-bind Found (claim_transaction-Runs id token found) (λ e v h. no_delete v h)
            λ sess.
              Runs-bind (Returned (refs sess)) (signed_in-Runs (refs sess) sess)
                (λ e v h. no_delete v h.1)
                λ signed_in.
                  Runs-bind (AfterStop (refs sess) (rev_onto (refs sess) []))
                    (Runs-from (stop_each-Runs ports (refs sess) (refs sess) []) λ s h. (h, refl))
                    (λ e v h. no_delete v h)
                    λ t. delete-Runs id token sess.workload_type signed_in (refs sess)
    where
      refs : Session → List PodRef
      refs sess = session_reclaim_refs sess (source_pod sess.snapshot_transaction)

      no_delete : (v : W × Trace) → asked_delete v.1 ≡ false → stopped_for_delete v.1 ≡ true
      no_delete v h = ground arith

  abbrev NotYet : {A : Type 0} → Result Error A × (W × Trace) → Type 0
  NotYet (r, s) = asked_delete s.1 ≡ false

  finish-Runs :
      (id token : Text)
      → Runs
          (λ s. asked_delete s.1 ≡ false)
          Deleted
          (terminate_under_lock (observed ports) id token)
  unfolding terminate_under_lock unlock_best_effort
  finish-Runs id token = record {
    at = λ s h. grind (arith, (terminate_locked-Runs id token).at s h, all_stopped-cons);
  }

  terminate-Runs :
      (id : Text) → Runs (λ s. asked_delete s.1 ≡ false) Deleted (terminate (observed ports) id)
  unfolding terminate
  terminate-Runs id =
      Runs-bind NotYet (record { at = λ s h. h }) (λ e v h. ground (arith, h))
        λ token.
          Runs-bind NotYet {m = (observed ports).store.lock id token} (record { at = λ s h. h })
            (λ e v h. ground (arith, h)) λ t. finish-Runs id token

-- `Terminate` asks the store to delete a record only after every pod of the record that it read, the source pod of an
-- interrupted freeze included, was stopped by a call that succeeded.
pub terminate-stopped_for_delete :
    {W : Type 0} (ports : Ports W) (id : Text) (w : W)
    → stopped_for_delete (terminate (observed ports) id (w, [])).1.1 ≡ true
terminate-stopped_for_delete ports id w = (terminate-Runs ports id).at (w, []) refl
