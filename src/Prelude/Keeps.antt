-- ===== src/Prelude/Keeps.antt =====
-- Invariants of worlds: one rule for each way to build an action.
use mathlib.Core.Bool.{Bool, true, false}
use mathlib.Core.Path.{◌≡◌, refl}
use session_platform.Prelude.Tests.{if◌then◌else◌}
use session_platform.Prelude.Outcomes.{
  Result, ok, err, Action, pure, raise, lift, attempt, ignore, continue, settle, handle, ◌>>=◌,
}

-- A run that starts in `P` ends in `Q`, whether it returns a value or an error.
pub record Leads {W E A : Type 0} (P Q : W → Type 0) (m : Action W E A) : Type 0 where
  pub at : (w : W) → P w → Q (m w).1

abbrev pub Keeps : {W E A : Type 0} (P : W → Type 0) → Action W E A → Type 0
Keeps P m = Leads P P m

module _ {W E A B : Type 0} {P Q R : W → Type 0} where
  pub Leads-bind :
      {m : Action W E A} {f : A → Action W E B}
      → Leads P Q m
      → ((w : W) → Q w → R w)
      → ((a : A) → Leads Q R (f a))
      → Leads P R (m >>= f)
  Leads-bind {m} {f} km weaken kf = record { at = λ w h. next (m w).0 (m w).1 (km.at w h) }
    where
      next : (r : Result E A) (v : W) → Q v → R (continue r f v).1
      next (ok a) v q = (kf a).at v q
      next (err e) v q = weaken v q

module _ {W E A B : Type 0} {P : W → Type 0} where
  pub Keeps-bind :
      {m : Action W E A} {f : A → Action W E B}
      → Keeps P m
      → ((a : A) → Keeps P (f a))
      → Keeps P (m >>= f)
  Keeps-bind km kf = Leads-bind km (λ w p. p) kf

  pub Keeps-lift-bind :
      (r : Result E A) {f : A → Action W E B}
      → ((a : A) → r ≡ ok a → Keeps P (f a))
      → Keeps P (lift r >>= f)
  Keeps-lift-bind (ok a) kf = record { at = λ w h. (kf a refl).at w h }
  Keeps-lift-bind (err e) kf = record { at = λ w h. h }

module _ {W E F A B : Type 0} {P Q R : W → Type 0} where
  pub Leads-handle :
      {m : Action W E A} {fault : E → Action W F B} {done : A → Action W F B}
      → Leads P Q m
      → ((e : E) → Leads Q R (fault e))
      → ((a : A) → Leads Q R (done a))
      → Leads P R (handle m fault done)
  Leads-handle {m} {fault} {done} km kf kd = record { at = λ w h. next (m w).0 (m w).1 (km.at w h) }
    where
      next : (r : Result E A) (v : W) → Q v → R (settle r fault done v).1
      next (ok a) v q = (kd a).at v q
      next (err e) v q = (kf e).at v q

module _ {W E A : Type 0} {P : W → Type 0} where
  pub Keeps-pure : (a : A) → Keeps P (pure {E = E} a)
  Keeps-pure a = record { at = λ w h. h }

  pub Keeps-raise : (e : E) → Keeps P (raise {A = A} e)
  Keeps-raise e = record { at = λ w h. h }

  pub Keeps-lift : (r : Result E A) → Keeps P (lift r)
  Keeps-lift r = record { at = λ w h. h }

  pub Keeps-attempt : {m : Action W E A} → Keeps P m → Keeps P (attempt m)
  Keeps-attempt km = record { at = λ w h. km.at w h }

  pub Keeps-ignore : {m : Action W E A} → Keeps P m → Keeps P (ignore m)
  Keeps-ignore km = record { at = λ w h. km.at w h }

module _ {W E A : Type 0} {P Q : W → Type 0} where
  pub Leads-if :
      (b : Bool) {m n : Action W E A}
      → (b ≡ true → Leads P Q m)
      → (b ≡ false → Leads P Q n)
      → Leads P Q (if b then m else n)
  Leads-if true km kn = km refl
  Leads-if false km kn = kn refl

-- Where what follows depends on how the call went.
module _ {W E F A B : Type 0} {P R : W → Type 0} (Post : Result E A × W → Type 0) where
  pub Leads-handle-post :
      {m : Action W E A} {fault : E → Action W F B} {done : A → Action W F B}
      → ((w : W) → P w → Post (m w))
      → ((e : E) → Leads (λ v. Post (err e, v)) R (fault e))
      → ((a : A) → Leads (λ v. Post (ok a, v)) R (done a))
      → Leads P R (handle m fault done)
  Leads-handle-post {m} {fault} {done} km kf kd = record {
    at = λ w h. next (m w).0 (m w).1 (km w h);
  }
    where
      next : (r : Result E A) (v : W) → Post (r, v) → R (settle r fault done v).1
      next (ok a) v q = (kd a).at v q
      next (err c) v q = (kf c).at v q

module _ {W E A B : Type 0} {P R : W → Type 0} (Post : Result E A × W → Type 0) where
  pub Leads-bind-post :
      {m : Action W E A} {f : A → Action W E B}
      → ((w : W) → P w → Post (m w))
      → ((e : E) (v : W) → Post (err e, v) → R v)
      → ((a : A) → Leads (λ v. Post (ok a, v)) R (f a))
      → Leads P R (m >>= f)
  Leads-bind-post {m} {f} km fault kf = record { at = λ w h. next (m w).0 (m w).1 (km w h) }
    where
      next : (r : Result E A) (v : W) → Post (r, v) → R (continue r f v).1
      next (ok a) v q = (kf a).at v q
      next (err c) v q = fault c v q

module _ {W E A : Type 0} {P Q R : W → Type 0} {m : Action W E A} where
  pub Leads-weaken : Leads P Q m → ((w : W) → Q w → R w) → Leads P R m
  Leads-weaken km weaken = record { at = λ w h. weaken (m w).1 (km.at w h) }

  pub Leads-from : Leads Q R m → ((w : W) → P w → Q w) → Leads P R m
  Leads-from km strengthen = record { at = λ w h. km.at w (strengthen w h) }
