-- ===== src/Service/Sweep.antt =====
-- control-plane/internal/service/reaper.go: which sessions a scan tries to freeze, and what it counts.
use session_platform.Prelude.{
  ℕ, ◌+◌, ◌-◌, ◌≤◌, ◌≡◌, refl, Bool, true, false, ◌||◌, some, List, [], ◌∷◌, Text, arith, ltb,
  length, Result, ok, err, Action, if◌then◌else◌,
}
use session_platform.Prelude.Runs.{Runs, Runs-if, Runs-bind, Runs-weaken}
use session_platform.Session.Errors.{Error}
use session_platform.Session.Record.{Session}
use session_platform.Service.Transactions.{is_snapshot}
use session_platform.Service.Reaper.{IdleManager, within_budget, counted, reap, scan}

abbrev pub Attempts : Type 0
Attempts = List (Text × ℕ)

module _ {W : Type 0} where
  -- A guarded manager that notes each attempt with its cutoff, newest first.
  abbrev pub noting :
      Action W Error (List Session)
      → (W → ℕ)
      → (Text → ℕ → Action W Error (Session × Bool))
      → IdleManager (W × Attempts)
  noting list now guarded = record {
    list = λ s. let (r, w) = list s.0 in (r, (w, s.1));
    snapshot = λ id s. (err Error.unfinished, s);
    snapshot_if_idle =
        some (λ id cutoff s. let (r, w) = guarded id cutoff s.0 in (r, (w, (id, cutoff) ∷ s.1)));
    now = λ s. now s.0;
  }

-- The idle sessions in the order of the list, newest attempt first.
abbrev pub due : ℕ → ℕ → List Session → Attempts → Attempts
due max_idle now [] before = before
due max_idle now (s ∷ ss) before =
    let skip = due max_idle now ss before in
    let next = due max_idle now ss ((s.id, now - max_idle) ∷ before) in
    if is_snapshot s || ltb now (s.last_access + max_idle) then skip else next

module _ {W : Type 0} (list : Action W Error (List Session)) (clock : W → ℕ)
    (guarded : Text → ℕ → Action W Error (Session × Bool)) (max_idle now : ℕ) where
  -- What a scan answers: the attempts that it made, and a count between what it started from and all of them.
  abbrev Swept : ℕ → Attempts → List Session → Result Error ℕ × (W × Attempts) → Type 0
  Swept n before sessions (ok m, s) =
      (s.1 ≡ due max_idle now sessions before) × (n ≤ m) × (m + length before ≤ n + length s.1)
  Swept n before sessions (err e, s) = ⊥

  abbrev Reaped :
      Session → Attempts → Result Error (Result Error (Session × Bool)) × (W × Attempts) → Type 0
  Reaped s before (ok done, v) = v.1 ≡ (s.id, now - max_idle) ∷ before
  Reaped s before (err e, v) = ⊥

  reap-Runs :
      (s : Session) (before : Attempts)
      → Runs (λ v. v.1 ≡ before) (Reaped s before) (reap (noting list clock guarded) max_idle now s)
  unfolding reap
  reap-Runs s before = record { at = λ w h. ground (arith, h) }

  skip-Swept :
      (s : Session) (ss : List Session) (n : ℕ) (before : Attempts)
      (r : Result Error ℕ × (W × Attempts))
      → is_snapshot s || ltb now (s.last_access + max_idle) ≡ true
      → Swept n before ss r
      → Swept n before (s ∷ ss) r
  skip-Swept s ss n before (ok m, v) e h = ground (arith, e, h)
  skip-Swept s ss n before (err c, v) e h = h

  try-Swept :
      (s : Session) (ss : List Session) (n : ℕ) (done : Result Error (Session × Bool))
      (before : Attempts) (r : Result Error ℕ × (W × Attempts))
      → is_snapshot s || ltb now (s.last_access + max_idle) ≡ false
      → Swept
          (counted (noting list clock guarded) max_idle done n)
          ((s.id, now - max_idle) ∷ before)
          ss
          r
      → Swept n before (s ∷ ss) r
  try-Swept s ss n done before (ok m, v) e h = ground (arith, e, h)
  try-Swept s ss n done before (err c, v) e h = h

  pub scan-Runs :
      (sessions : List Session) (n : ℕ) (before : Attempts)
      → Runs
          (λ v. v.1 ≡ before)
          (Swept n before sessions)
          (scan (noting list clock guarded) max_idle now sessions n)
  unfolding scan
  scan-Runs [] n before = record { at = λ w h. ground (arith, h) }
  scan-Runs (s ∷ ss) n before =
      Runs-if (is_snapshot s)
        (λ frozen.
          Runs-weaken (scan-Runs ss n before)
            λ r. skip-Swept s ss n before r (ground (arith, frozen)))
        λ live.
          Runs-if (within_budget (noting list clock guarded) max_idle now s)
            (λ used.
              Runs-weaken (scan-Runs ss n before)
                λ r. skip-Swept s ss n before r (ground (arith, used)))
            λ idle.
              Runs-bind (Reaped s before) (reap-Runs s before) (λ e w h. h)
                λ done.
                  Runs-weaken
                    (scan-Runs ss (counted (noting list clock guarded) max_idle done n)
                      ((s.id, now - max_idle) ∷ before))
                    λ r. try-Swept s ss n done before r (ground (arith, live, idle))

-- A scan of the reaper tries to freeze exactly the sessions of the list that are not snapshots and were idle for the
-- whole budget at the time of the scan, each once, in the order of the list and with the cutoff `now - max_idle`;
-- it reports no error after the list was read, and its count is at most the number of the attempts.
pub scan-due :
    {W : Type 0} (list : Action W Error (List Session)) (clock : W → ℕ)
    (guarded : Text → ℕ → Action W Error (Session × Bool)) (max_idle now : ℕ)
    (sessions : List Session) (w : W)
    → (m : ℕ) × (v : W) × (scan (noting list clock guarded) max_idle now sessions 0 (w, [])
        ≡ (ok m, (v, due max_idle now sessions [])))
      × (m ≤ length (due max_idle now sessions []))
scan-due {W} list clock guarded max_idle now sessions w =
    of_run (scan (noting list clock guarded) max_idle now sessions 0 (w, []))
      ((scan-Runs list clock guarded max_idle now sessions 0 []).at (w, []) refl)
  where
    of_run :
        (r : Result Error ℕ × (W × Attempts))
        → Swept list clock guarded max_idle now 0 [] sessions r
        → (m : ℕ) × (v : W) × (r ≡ (ok m, (v, due max_idle now sessions [])))
          × (m ≤ length (due max_idle now sessions []))
    of_run (ok m, v) h = (m, v.0, ground (arith, h), ground (arith, h))
    of_run (err e, v) h = absurd h
