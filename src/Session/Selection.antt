-- ===== src/Session/Selection.antt =====
-- control-plane/internal/session/session.go: exactly which plugin selections are accepted.
use mathlib.Core.List.{append_assoc, append-nil}
use session_platform.Prelude.{
  ◌≡◌, refl, ◌≢◌, ◌≤◌, ◌↔◌, true, false, Option, some, List, [], ◌∷◌, ◌++◌, arith, Text, text_eq,
  text_eq_iff, any, All, length, Result, ok, err,
}
use session_platform.Session.Errors.{Error}
use session_platform.Session.Types.{WorkloadType}
use session_platform.Session.Plugins.{
  plugin_name, takes_plugins, collect_plugins, normalize_plugins, some_plugins, max_session_plugins,
}

-- No entry equals a later one.
abbrev pub Distinct : List Text → Type 0
Distinct [] = Unit
Distinct (x ∷ xs) = All (λ y. x ≢ y) xs × Distinct xs

abbrev pub Named : List Text → Type 0
Named = All (λ name. plugin_name name ≡ true)

abbrev Fresh : List Text → List Text → Type 0
Fresh seen [] = Unit
Fresh seen (n ∷ ns) = (any (text_eq n) seen ≡ false) × Fresh (n ∷ seen) ns

collect_plugins_lem :
    (seen out names r : List Text)
    → collect_plugins seen out names ≡ ok r
    → (r ≡ out ++ names) × Named names × Fresh seen names
unfolding collect_plugins
collect_plugins_lem seen out [] r h = ground (arith, append-nil out)
collect_plugins_lem seen out (n ∷ names) r h =
    ground (
      arith,
      collect_plugins_lem (n ∷ seen) (out ++ n ∷ []) names r,
      append_assoc out (n ∷ []) names,
    )

collect_plugins_complete :
    (seen out names : List Text)
    → Named names
    → Fresh seen names
    → collect_plugins seen out names ≡ ok (out ++ names)
unfolding collect_plugins
collect_plugins_complete seen out [] h f = rw append-nil
collect_plugins_complete seen out (n ∷ names) h f = ground (
  arith,
  collect_plugins_complete (n ∷ seen) (out ++ n ∷ []) names,
  append_assoc out (n ∷ []) names,
)

-- `Fresh` with the names seen, taken apart.
abbrev Outside : List Text → List Text → Type 0
Outside seen names = All (λ n. any (text_eq n) seen ≡ false) names

Outside-cons :
    (n : Text) (seen names : List Text)
    → Outside (n ∷ seen) names
    → All (λ y. n ≢ y) names × Outside seen names
Outside-cons n seen [] h = (tt, tt)
Outside-cons n seen (m ∷ names) h =
    let (later, rest) = Outside-cons n seen names h.1 in
    ((ground (arith, text_eq_iff m n), later), (ground arith, rest))

Outside-join :
    (n : Text) (seen names : List Text)
    → All (λ y. n ≢ y) names
    → Outside seen names
    → Outside (n ∷ seen) names
Outside-join n seen [] d o = tt
Outside-join n seen (m ∷ names) d o =
    (ground (arith, text_eq_iff m n), Outside-join n seen names d.1 o.1)

Fresh-Distinct : (seen names : List Text) → Fresh seen names → Distinct names × Outside seen names
Fresh-Distinct seen [] f = (tt, tt)
Fresh-Distinct seen (n ∷ names) f =
    let (distinct, outside) = Fresh-Distinct (n ∷ seen) names f.1 in
    let (later, rest) = Outside-cons n seen names outside in ((later, distinct), (f.0, rest))

Distinct-Fresh : (seen names : List Text) → Distinct names → Outside seen names → Fresh seen names
Distinct-Fresh seen [] d o = tt
Distinct-Fresh seen (n ∷ names) d o =
    (o.0, Distinct-Fresh (n ∷ seen) names d.1 (Outside-join n seen names d.0 o.1))

Outside-nil : (names : List Text) → Outside [] names
Outside-nil [] = tt
Outside-nil (n ∷ names) = (refl, Outside-nil names)

pub record IsSelection (w : WorkloadType) (plugins : List Text) : Type 0 where
  pub taken : takes_plugins w ≡ true
  pub nonempty : plugins ≢ []
  pub bounded : length plugins ≤ max_session_plugins
  pub named : Named plugins
  pub distinct : Distinct plugins

some_plugins-eq-ok :
    (c : Result Error (List Text)) (r : Option (List Text))
    → some_plugins c ≡ ok r
    → (out : List Text) × (c ≡ ok out) × (r ≡ some out)
some_plugins-eq-ok (ok out) r h = (out, refl, ground arith)
some_plugins-eq-ok (err e) r h = cc

accepted_lem :
    (w : WorkloadType) (plugins : List Text) (r : Option (List Text))
    → normalize_plugins w (some plugins) ≡ ok r
    → IsSelection w plugins × (r ≡ some plugins)
unfolding normalize_plugins
accepted_lem w plugins r h =
    let (out, collected, e) = some_plugins-eq-ok (collect_plugins [] [] plugins) r (ground arith) in
    let (same, named, fresh) = collect_plugins_lem [] [] plugins out collected in
    (
      record {
        taken = ground arith;
        nonempty = λ none_left. ground arith;
        bounded = ground arith;
        named = named;
        distinct = (Fresh-Distinct [] plugins fresh).0;
      },
      ground arith,
    )

-- A plugin list is accepted exactly when the workload type takes plugins, the list has between 1 and
-- 16 entries, every entry is a plugin name, and no entry stands twice; and what is stored is then
-- the list itself, in request order.
pub normalize_plugins_iff :
    (w : WorkloadType) (plugins : List Text) (r : Option (List Text))
    → (normalize_plugins w (some plugins) ≡ ok r) ↔ (IsSelection w plugins × (r ≡ some plugins))
unfolding normalize_plugins
normalize_plugins_iff w plugins r = (
  λ h. accepted_lem w plugins r h,
  λ h. ground (
    arith,
    h,
    collect_plugins_complete [] [] plugins h.0.named
        (Distinct-Fresh [] plugins h.0.distinct (Outside-nil plugins)),
  ),
)
