-- ===== src/Prelude/Runs.antt =====
-- What a run ensures of its result and its last world together: one rule for each way to build an action.
use mathlib.Core.Bool.{Bool, true, false}
use mathlib.Core.Path.{◌≡◌, refl}
use session_platform.Prelude.Tests.{if◌then◌else◌}
use session_platform.Prelude.Outcomes.{
  Result, ok, err, Action, pure, raise, continue, settle, handle, ◌>>=◌,
}

pub record Runs {W E A : Type 0} (P : W → Type 0) (Q : Result E A × W → Type 0) (m : Action W E A)
    : Type 0 where
  pub at : (w : W) → P w → Q (m w)

module _ {W E A B : Type 0} {P : W → Type 0} {Q : Result E B × W → Type 0}
    (Mid : Result E A × W → Type 0) where
  pub Runs-bind :
      {m : Action W E A} {f : A → Action W E B}
      → Runs P Mid m
      → ((e : E) (v : W) → Mid (err e, v) → Q (err e, v))
      → ((a : A) → Runs (λ v. Mid (ok a, v)) Q (f a))
      → Runs P Q (m >>= f)
  Runs-bind {m} {f} km fault kf = record { at = λ w h. next (m w).0 (m w).1 (km.at w h) }
    where
      next : (r : Result E A) (v : W) → Mid (r, v) → Q (continue r f v)
      next (ok a) v q = (kf a).at v q
      next (err e) v q = fault e v q

module _ {W E F A B : Type 0} {P : W → Type 0} {Q : Result F B × W → Type 0}
    (Mid : Result E A × W → Type 0) where
  pub Runs-handle :
      {m : Action W E A} {fault : E → Action W F B} {done : A → Action W F B}
      → Runs P Mid m
      → ((e : E) → Runs (λ v. Mid (err e, v)) Q (fault e))
      → ((a : A) → Runs (λ v. Mid (ok a, v)) Q (done a))
      → Runs P Q (handle m fault done)
  Runs-handle {m} {fault} {done} km kf kd = record { at = λ w h. next (m w).0 (m w).1 (km.at w h) }
    where
      next : (r : Result E A) (v : W) → Mid (r, v) → Q (settle r fault done v)
      next (ok a) v q = (kd a).at v q
      next (err e) v q = (kf e).at v q

module _ {W E A : Type 0} {P : W → Type 0} {Q : Result E A × W → Type 0} where
  pub Runs-if :
      (b : Bool) {m n : Action W E A}
      → (b ≡ true → Runs P Q m)
      → (b ≡ false → Runs P Q n)
      → Runs P Q (if b then m else n)
  Runs-if true km kn = km refl
  Runs-if false km kn = kn refl

  pub Runs-from :
      {R : W → Type 0} {m : Action W E A} → Runs R Q m → ((w : W) → P w → R w) → Runs P Q m
  Runs-from km strengthen = record { at = λ w h. km.at w (strengthen w h) }

module _ {W E A : Type 0} {P : W → Type 0} {Q R : Result E A × W → Type 0} where
  pub Runs-weaken :
      {m : Action W E A} → Runs P Q m → ((r : Result E A × W) → Q r → R r) → Runs P R m
  Runs-weaken {m} km weaken = record { at = λ w h. weaken (m w) (km.at w h) }

-- Of the value that a run returns, if it returns one.
abbrev pub Returns : {W E A : Type 0} (Q : A → Type 0) → Result E A × W → Type 0
Returns Q (ok a, w) = Q a
Returns Q (err e, w) = Unit

abbrev pub Anywhere : {W : Type 0} → W → Type 0
Anywhere w = Unit

abbrev pub Gives : {W E A : Type 0} (Q : A → Type 0) → Action W E A → Type 0
Gives Q m = Runs Anywhere (Returns Q) m

module _ {W E A B : Type 0} {Q : B → Type 0} (R : A → Type 0) where
  pub Gives-bind :
      {m : Action W E A} {f : A → Action W E B}
      → Gives R m
      → ((a : A) → R a → Gives Q (f a))
      → Gives Q (m >>= f)
  Gives-bind {m} {f} km kf =
      Runs-bind (Returns R) km (λ e v h. tt) λ a. record { at = λ v r. (kf a r).at v tt }

module _ {W E A B : Type 0} {Q : B → Type 0} where
  pub Gives-after :
      (m : Action W E A) {f : A → Action W E B} → ((a : A) → Gives Q (f a)) → Gives Q (m >>= f)
  Gives-after m kf = Gives-bind (λ a. Unit) (record { at = λ w h. anything (m w) }) λ a h. kf a
    where
      anything : (r : Result E A × W) → Returns (λ a. Unit) r
      anything (ok a, v) = tt
      anything (err e, v) = tt

module _ {W E F A B : Type 0} {Q : B → Type 0} where
  pub Gives-handle :
      (m : Action W E A) {fault : E → Action W F B} {done : A → Action W F B}
      → ((e : E) → Gives Q (fault e))
      → ((a : A) → Gives Q (done a))
      → Gives Q (handle m fault done)
  Gives-handle m kf kd = Runs-handle (λ r. Unit) (record { at = λ w h. tt }) kf kd

module _ {W E A : Type 0} {Q : A → Type 0} where
  pub Gives-pure : (a : A) → Q a → Gives {W = W} {E = E} Q (pure a)
  Gives-pure a q = record { at = λ w h. q }

  pub Gives-raise : (e : E) → Gives {W = W} Q (raise e)
  Gives-raise e = record { at = λ w h. tt }
