-- ===== src/Service/Cleaned.antt =====
-- control-plane/internal/service/manager.go: whether the pods that were started were stopped again, and what the
-- part of a restore that starts pods leaves.
use session_platform.Prelude.{
  ◌≡◌, refl, Bool, true, false, ◌&&◌, ◌||◌, any, Option, List, [], ◌∷◌, Text, text_eq, text_eq_iff,
  arith, Result, ok, err, handle, pure, lift, continue, ◌>>◌,
}
use session_platform.Session.Errors.{Error, is, conflict, not_found, joined}
use session_platform.Prelude.Runs.{Runs, Runs-handle, Runs-if, Runs-from}
use session_platform.Session.Types.{State, state_eq}
use session_platform.Session.Record.{Session, SnapshotTransaction}
use session_platform.Pods.{PodRef, SessionPods, WorkloadSpec, all_pods}
use session_platform.Service.Ports.{Ports, Checkpointer}
use session_platform.Service.Observed.{
  Trace, Event, done, provision_of, read_of, reads, swaps, fails, provisions, stops, observed,
  observed_checkpointer,
}
use session_platform.Service.Helpers.{
  normalize_stored_session, get, checkpoint_ref, stop_pods_best_effort,
}
use session_platform.Service.Restore.{
  restored_session, committed_anyway, restore_into_pods, commit_restore, prepare_restored,
  settle_failed_swap,
}

abbrev same_refs : List PodRef → List PodRef → Bool
same_refs [] [] = true
same_refs (a ∷ xs) (b ∷ ys) = let rest = same_refs xs ys in text_eq a.name b.name && rest
same_refs _ _ = false

abbrev is_stop_of : List PodRef → Event → Bool
is_stop_of refs (stops rs b) = same_refs rs refs
is_stop_of refs _ = false

-- For every set of pods that was started a stop of the whole set was asked for later; the first argument are the later events.
abbrev pub cleaned : Trace → Trace → Bool
cleaned later [] = true
cleaned later (provisions pods ∷ t) =
    let rest = cleaned (provisions pods ∷ later) t in any (is_stop_of (all_pods pods)) later && rest
cleaned later (e ∷ t) = cleaned (e ∷ later) t

pub same_refs_refl : (refs : List PodRef) → same_refs refs refs ≡ true
same_refs_refl [] = refl
same_refs_refl (r ∷ rs) = ground (arith, same_refs_refl rs, (text_eq_iff r.name r.name).1 refl)

abbrev is_unreadable : Result Error Session → Bool
is_unreadable (ok s) = false
is_unreadable (err e) = true

-- The newest events of a restore that cannot know whether its swap went through: the swap was answered by an error,
-- and then the record could not be read or not be understood.
abbrev pub answer_lost : Trace → Bool
answer_lost (fails ∷ swaps token next false ∷ t) = true
answer_lost (reads s ∷ swaps token next false ∷ t) = is_unreadable (normalize_stored_session s)
answer_lost _ = false

-- The newest events of a restore that the record took over: its swap was accepted, or answered by an error and then
-- the record was read as active with the pod of the swap.
abbrev pub taken_over : Trace → Bool
taken_over (swaps token next true ∷ t) = true
taken_over (reads s ∷ swaps token next false ∷ t) =
    state_eq s.state State.active && text_eq s.pod next.pod
taken_over _ = false

abbrev swap_refused : SessionPods → Trace → Bool
swap_refused spods (swaps token next false ∷ t) = text_eq next.pod spods.workload.name
swap_refused spods _ = false

-- How a restore ends: with its slot given back and nothing left running, or with the slot kept.
abbrev pub Tidy : Bool × Result Error Session → Trace → Type 0
Tidy (false, r) t = (later : Trace) → cleaned later t ≡ true
Tidy (true, ok sess) t = taken_over t ≡ true
Tidy (true, err e) t = answer_lost t ≡ true

module _ {W : Type 0} where
  -- Nothing is left running, and a stop of these pods would do that too.
  abbrev pub Clear : W × Trace → Type 0
  Clear s = (later : Trace) → cleaned later s.1 ≡ true

  abbrev Pending : SessionPods → W × Trace → Type 0
  Pending spods s =
      (later : Trace) → any (is_stop_of (all_pods spods)) later ≡ true → cleaned later s.1 ≡ true

  abbrev pub Settled : Result Error (Bool × Result Error Session) × (W × Trace) → Type 0
  Settled (ok outcome, s) = Tidy outcome s.1
  Settled (err e, s) = Clear s

  abbrev Prepared : SessionPods → Result Error Unit × (W × Trace) → Type 0
  Prepared spods (r, s) = Pending spods s

  abbrev Provisioned : Result Error SessionPods × (W × Trace) → Type 0
  Provisioned (ok spods, s) = Pending spods s
  Provisioned (err e, s) = Clear s

  abbrev Refused : SessionPods → W × Trace → Type 0
  Refused spods s = Pending spods s × (swap_refused spods s.1 ≡ true)

  abbrev Swapped : SessionPods → Result Error Unit × (W × Trace) → Type 0
  Swapped spods (ok t, s) = taken_over s.1 ≡ true
  Swapped spods (err e, s) = Refused spods s

  abbrev Reread : SessionPods → Result Error Session × (W × Trace) → Type 0
  Reread spods (ok fresh, s) =
      Pending spods s × (committed_anyway fresh spods ≡ true → taken_over s.1 ≡ true)
  Reread spods (err g, s) = Pending spods s × (answer_lost s.1 ≡ true)

same_pod :
    (raw fresh : Session)
    → normalize_stored_session raw ≡ ok fresh
    → (fresh.state ≡ raw.state) × (fresh.pod ≡ raw.pod)
unfolding normalize_stored_session
same_pod raw fresh h = ground (arith, h)

took_over :
    (raw fresh : Session) (spods : SessionPods) (t : Trace)
    → swap_refused spods t ≡ true
    → (fresh.state ≡ raw.state) × (fresh.pod ≡ raw.pod)
    → committed_anyway fresh spods ≡ true
    → taken_over (reads raw ∷ t) ≡ true
took_over raw fresh spods (swaps token next false ∷ t) h same c = ground (
  arith,
  same.0,
  same.1,
  text_eq_iff next.pod spods.workload.name,
  text_eq_iff fresh.pod spods.workload.name,
  text_eq_iff raw.pod next.pod,
)
took_over raw fresh spods _ h same c = ground (arith, h)

module _ {W : Type 0} (ports : Ports W) where
  stop_pods-Runs :
      (spods : SessionPods) (r : Result Error Session)
      → Runs
          (Pending spods)
          Settled
          (stop_pods_best_effort (observed ports) (all_pods spods) >> pure (false, r))
  unfolding stop_pods_best_effort
  stop_pods-Runs spods r = record { at = λ s h later. grind (arith, h, same_refs_refl) }

  prepare_restored-Runs :
      (sess : Session) (ckpt : Checkpointer W) (spods : SessionPods)
      → Runs
          (Pending spods)
          (Prepared spods)
          (prepare_restored (observed ports) sess (observed_checkpointer ckpt) spods)
  unfolding prepare_restored
  prepare_restored-Runs sess ckpt spods = record {
    at = λ s h later stopped. grind (arith, h, stopped);
  }

  read_again-Runs :
      (id : Text) (spods : SessionPods)
      → Runs (Refused spods) (Reread spods) (get (observed ports) id)
  unfolding get
  read_again-Runs id spods = record { at = λ s h. reread s h (ports.store.get id s.0) }
    where
      understood :
          (s : W × Trace)
          → Refused spods s
          → (raw : Session) (w : W) (n : Result Error Session) → normalize_stored_session raw ≡ n
          → Reread spods (n, (w, reads raw ∷ s.1))
      understood s h raw w (err g) e = (
        λ later stopped. h.0 (reads raw ∷ later) (grind (arith, stopped)),
        ground (arith, h.1, e),
      )
      understood s h raw w (ok fresh) e = (
        λ later stopped. h.0 (reads raw ∷ later) (grind (arith, stopped)),
        λ c. took_over raw fresh spods s.1 h.1 (same_pod raw fresh e) c,
      )

      reread :
          (s : W × Trace)
          → Refused spods s
          → (r : Result Error Session × W)
          → Reread spods
              (continue r.0 (λ raw. lift (normalize_stored_session raw)) (r.1, read_of r.0 ∷ s.1))
      reread s h (err g, w) =
          (λ later stopped. h.0 (fails ∷ later) (grind (arith, stopped)), ground (arith, h.1))
      reread s h (ok raw, w) = understood s h raw w (normalize_stored_session raw) refl

  settle_failed_swap-Runs :
      (id : Text) (spods : SessionPods) (e : Error)
      → Runs (Refused spods) Settled (settle_failed_swap (observed ports) id spods e)
  unfolding settle_failed_swap
  settle_failed_swap-Runs id spods e =
      Runs-handle (Reread spods) (read_again-Runs id spods)
        (λ g.
          Runs-if (is conflict e || is not_found g)
            (λ known. Runs-from (stop_pods-Runs spods (err (joined e g))) λ s h. h.0)
            λ unknown. record { at = λ s h. h.1 })
        λ fresh.
          Runs-if (committed_anyway fresh spods) (λ went. record { at = λ s h. h.1 went })
            λ stayed. Runs-from (stop_pods-Runs spods (err e)) λ s h. h.0

  swap_Swapped :
      (id token : Text) (txn : Option SnapshotTransaction) (spods : SessionPods) (next : Session)
      (s : W × Trace)
      → Pending spods s
      → next.pod ≡ spods.workload.name
      → Swapped spods
          ((observed ports).store.compare_and_swap_session id token State.snapshot txn next s)
  swap_Swapped id token txn spods next s h named =
      split ((ports.store.compare_and_swap_session id token State.snapshot txn next) s.0)
    where
      split :
          (r : Result Error Unit × W)
          → Swapped spods (r.0, (r.1, swaps token next (done r.0) ∷ s.1))
      split (ok t, w) = refl
      split (err e, w) = (
        λ later stopped. grind (arith, h, stopped),
        ground (arith, named, text_eq_iff next.pod spods.workload.name),
      )

  start_Provisioned :
      (id ref : Text) (spec : WorkloadSpec) (s : W × Trace)
      → Clear s
      → Provisioned ((observed ports).orch.restore_into id ref spec s)
  start_Provisioned id ref spec s h = split (ports.orch.restore_into id ref spec s.0)
    where
      split : (r : Result Error SessionPods × W) → Provisioned (r.0, (r.1, provision_of r.0 ∷ s.1))
      split (ok spods, w) = λ later stopped. grind (arith, h, stopped)
      split (err e, w) = λ later. h (fails ∷ later)

  commit_restore-Runs :
      (id token : Text) (sess : Session) (spec : WorkloadSpec) (spods : SessionPods)
      → Runs (Pending spods) Settled (commit_restore (observed ports) id token sess spec spods)
  unfolding commit_restore
  commit_restore-Runs id token sess spec spods = record {
    at = λ s h. (swap_or_settle (restored_session sess spec spods (ports.now s.0)) refl).at s h;
  }
    where
      swap_or_settle :
          (next : Session)
          → next.pod ≡ spods.workload.name
          → Runs (Pending spods) Settled (
              handle
                ((observed ports).store.compare_and_swap_session id token State.snapshot
                  sess.snapshot_transaction next)
                (settle_failed_swap (observed ports) id spods)
                λ t. pure (true, ok next))
      swap_or_settle next named =
          Runs-handle (Swapped spods)
            (record {
              at = λ s h. swap_Swapped id token sess.snapshot_transaction spods next s h named;
            })
            (λ e. settle_failed_swap-Runs id spods e) λ t. record { at = λ s h. h }

  pub restore_into_pods-Runs :
      (id token : Text) (sess : Session) (ckpt : Checkpointer W) (spec : WorkloadSpec)
      → Runs Clear Settled
          (restore_into_pods (observed ports) id token sess (observed_checkpointer ckpt) spec)
  unfolding restore_into_pods
  restore_into_pods-Runs id token sess ckpt spec =
      Runs-handle Provisioned
        (record { at = λ s h. start_Provisioned id (checkpoint_ref sess.checkpoint) spec s h })
        (λ e. record { at = λ s h. h })
        λ spods.
          Runs-handle (Prepared spods) (prepare_restored-Runs sess ckpt spods)
            (λ e. stop_pods-Runs spods (err e)) λ t. commit_restore-Runs id token sess spec spods
