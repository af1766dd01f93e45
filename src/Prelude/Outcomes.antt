-- ===== src/Prelude/Outcomes.antt =====
-- Go's `(value, error)` results, and code that calls ports. `W` is the type of the worlds that the
-- ports act on; what was done before an error stays done, so the world comes back beside it.
use mathlib.Core.Path.{◌≡◌, refl}
use mathlib.Core.Logic.{◌⊎◌, inl, inr}

pub data Result (E A : Type 0) : Type 0 where
  ok : A → Result E A
  err : E → Result E A

-- `if err != nil { return err }` between two pure calls.
abbrev pub and_then : {E A B : Type 0} → Result E A → (A → Result E B) → Result E B
and_then (ok a) f = f a
and_then (err e) f = err e

abbrev pub Action : Type 0 → Type 0 → Type 0 → Type 0
Action W E A = W → Result E A × W

module _ {W E : Type 0} where
  abbrev pub pure : {A : Type 0} → A → Action W E A
  pure a w = (ok a, w)

  abbrev pub raise : {A : Type 0} → E → Action W E A
  raise e w = (err e, w)

  abbrev pub lift : {A : Type 0} → Result E A → Action W E A
  lift r w = (r, w)

  -- A caller that looks at the error itself.
  abbrev pub attempt : {A : Type 0} → Action W E A → Action W E (Result E A)
  attempt m w = let (r, w') = m w in (ok r, w')

  abbrev pub ignore : {A : Type 0} → Action W E A → Action W E Unit
  ignore m w = let (r, w') = m w in (ok tt, w')

module _ {W E : Type 0} {A B : Type 0} where
  abbrev pub continue : Result E A → (A → Action W E B) → Action W E B
  continue (ok a) f w = f a w
  continue (err e) f w = (err e, w)

  infixl 5 ◌>>=◌ ◌>>◌
  abbrev pub ◌>>=◌ : Action W E A → (A → Action W E B) → Action W E B
  ◌>>=◌ m f w = let (r, w') = m w in continue r f w'

  abbrev pub ◌>>◌ : Action W E A → Action W E B → Action W E B
  m >> n = m >>= λ _. n

-- `if a, err := m(); err != nil { fault(err) } else { done(a) }`.
module _ {W E F A B : Type 0} where
  abbrev pub settle : Result E A → (E → Action W F B) → (A → Action W F B) → Action W F B
  settle (ok a) fault done w = done a w
  settle (err e) fault done w = fault e w

  abbrev pub handle : Action W E A → (E → Action W F B) → (A → Action W F B) → Action W F B
  handle m fault done w = let (r, w') = m w in settle r fault done w'

pub Result-cases :
    {E A : Type 0} (r : Result E A) → ((a : A) × (r ≡ ok a)) ⊎ ((e : E) × (r ≡ err e))
Result-cases (ok a) = inl (a, refl)
Result-cases (err e) = inr (e, refl)

-- The two ways that a run can go, with the world that it left.
pub run-cases :
    {W E A : Type 0} (m : Action W E A) (w : W)
    → ((a : A) × (w' : W) × (m w ≡ (ok a, w'))) ⊎ ((e : E) × (w' : W) × (m w ≡ (err e, w')))
run-cases {W} {E} {A} m w = split (m w).0 (m w).1 refl
  where
    split :
        (r : Result E A) (v : W)
        → m w ≡ (r, v)
        → ((a : A) × (w' : W) × (m w ≡ (ok a, w'))) ⊎ ((e : E) × (w' : W) × (m w ≡ (err e, w')))
    split (ok a) v e = inl (a, v, e)
    split (err c) v e = inr (c, v, e)
