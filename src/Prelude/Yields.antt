-- ===== src/Prelude/Yields.antt =====
-- What holds of the value of a result, if it has one: one rule for each way to build a result.
use mathlib.Core.Bool.{Bool, true, false}
use mathlib.Core.Option.{Option, none, some}
use mathlib.Core.Path.{◌≡◌, refl, subst}
use native.Mathlib.Omega.{arith}
use session_platform.Prelude.Tests.{if◌then◌else◌}
use session_platform.Prelude.Outcomes.{Result, ok, err, and_then}

pub record Yields {E A : Type 0} (Q : A → Type 0) (r : Result E A) : Type 0 where
  pub at : (a : A) → r ≡ ok a → Q a

module _ {E A B : Type 0} {Q : B → Type 0} where
  pub Yields-and_then :
      (r : Result E A) {f : A → Result E B}
      → ((a : A) → r ≡ ok a → Yields Q (f a))
      → Yields Q (and_then r f)
  Yields-and_then (ok a) k = k a refl
  Yields-and_then (err e) k = record { at = λ b h. absurd (ground arith) }

module _ {E A : Type 0} {Q : A → Type 0} where
  pub Yields-ok : (a : A) → Q a → Yields {E = E} Q (ok a)
  Yields-ok a q = record { at = λ b h. subst Q (ground arith) q }

  pub Yields-err : (e : E) → Yields Q (err e)
  Yields-err e = record { at = λ b h. absurd (ground arith) }

  pub Yields-if :
      (b : Bool) {r s : Result E A} → Yields Q r → Yields Q s → Yields Q (if b then r else s)
  Yields-if true q q' = q
  Yields-if false q q' = q'

  -- With what the test said.
  pub Yields-test :
      (b : Bool) {r s : Result E A}
      → (b ≡ true → Yields Q r)
      → (b ≡ false → Yields Q s)
      → Yields Q (if b then r else s)
  Yields-test true q q' = q refl
  Yields-test false q q' = q' refl

module _ {E A B : Type 0} {Q : A → Type 0} where
  pub Yields-option :
      (o : Option B) {r : Result E A} {f : B → Result E A}
      → (o ≡ none → Yields Q r)
      → ((b : B) → o ≡ some b → Yields Q (f b))
      → Yields Q (elim o [ none ↦ r | some b ↦ f b ])
  Yields-option none q q' = q refl
  Yields-option (some b) q q' = q' b refl
