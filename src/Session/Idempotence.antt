-- ===== src/Session/Idempotence.antt =====
-- control-plane/internal/session/session.go: normalising a stored model a second time.
use mathlib.Core.List.{reverse, reverse-reverse, reverse-cons}
use session_platform.Prelude.{ℕ, ◌≡◌, refl, Bool, true, not, [], ◌∷◌, ◌++◌, arith, Text, all, ok}
use session_platform.Session.Types.{
  WorkloadType, unspecified, shell, claude_code, approval_gated, minimax_code, codex_chat,
  codex_task, codex,
}
use session_platform.Session.Models.{
  is_space, trim_left, trim_space, is_alnum, is_model_char, model_tail, model_name, dispatch_model,
  normalize_model, platform_default_model, concrete_model, no_model,
}

visible : ℕ → Bool
unfolding is_space
visible c = not (is_space c)

is_model_char-visible : (c : ℕ) → is_model_char c ≡ true → visible c ≡ true
unfolding is_model_char visible
is_model_char-visible c h = ground arith

all-visible : (s : Text) → all is_model_char s ≡ true → all visible s ≡ true
all-visible [] h = refl
all-visible (c ∷ s) h = ground (arith, is_model_char-visible c, all-visible s)

is_alnum-is_model_char : (c : ℕ) → is_alnum c ≡ true → is_model_char c ≡ true
unfolding is_model_char
is_alnum-is_model_char c h = ground arith

model_tail-visible : (n : ℕ) (s : Text) → model_tail n s ≡ true → all visible s ≡ true
unfolding model_tail
model_tail-visible n [] h = refl
model_tail-visible n (c ∷ s) h =
    ground (arith, is_alnum-is_model_char c, is_model_char-visible c, all-visible s)

tilde-visible : visible b'~' ≡ true
unfolding visible
tilde-visible = refl

model_name-visible : (s : Text) → model_name s ≡ true → all visible s ≡ true
unfolding model_name
model_name-visible [] h = refl
model_name-visible (c ∷ s) h =
    ground (arith, model_tail-visible 126 s, model_tail-visible 127 (c ∷ s), tilde-visible)

trim_left-visible : (s : Text) → all visible s ≡ true → trim_left s ≡ s
unfolding trim_left visible
trim_left-visible [] h = refl
trim_left-visible (c ∷ s) h = ground arith

all-append : (p : ℕ → Bool) (s t : Text) → all p s ≡ true → all p t ≡ true → all p (s ++ t) ≡ true
all-append p [] t hs ht = ht
all-append p (c ∷ s) t hs ht = ground (arith, all-append p s t)

all-reverse : (p : ℕ → Bool) (s : Text) → all p s ≡ true → all p (reverse s) ≡ true
all-reverse p [] h = refl
all-reverse p (c ∷ s) h =
    rw (reverse-cons c s) (ground (arith, all-append p (reverse s) (c ∷ []), all-reverse p s))

trim_space-visible : (s : Text) → all visible s ≡ true → trim_space s ≡ s
unfolding trim_space
trim_space-visible s h =
    rw (trim_left-visible s h, trim_left-visible (reverse s) (all-reverse visible s h))
      (reverse-reverse s)

default-visible : trim_space platform_default_model ≡ platform_default_model
unfolding trim_space
default-visible = refl

default-model_name : model_name platform_default_model ≡ true
unfolding model_name
default-model_name = refl

concrete_model-trim :
    (m : Text) {r : Text} → concrete_model m ≡ ok r → (trim_space r ≡ r) × (concrete_model r ≡ ok r)
concrete_model-trim [] h = ground (arith, default-visible, default-model_name)
concrete_model-trim (c ∷ s) h =
    ground (arith, trim_space-visible (c ∷ s), model_name-visible (c ∷ s))

no_model-trim : (m : Text) {r : Text} → no_model m ≡ ok r → (trim_space r ≡ r) × (no_model r ≡ ok r)
unfolding trim_space
no_model-trim [] {r} h = ground (arith, (let e : trim_space [] ≡ [] = refl in e))
no_model-trim (c ∷ s) h = cc

dispatch_model-trim :
    (w : WorkloadType) (m : Text) {r : Text}
    → dispatch_model w m ≡ ok r
    → (trim_space r ≡ r) × (dispatch_model w r ≡ ok r)
unfolding dispatch_model
dispatch_model-trim shell m h = no_model-trim m h
dispatch_model-trim claude_code m h = concrete_model-trim m h
dispatch_model-trim approval_gated m h = concrete_model-trim m h
dispatch_model-trim minimax_code m h = concrete_model-trim m h
dispatch_model-trim codex_chat m h = concrete_model-trim m h
dispatch_model-trim codex_task m h = concrete_model-trim m h
dispatch_model-trim unspecified m h = cc
dispatch_model-trim codex m h = cc
dispatch_model-trim (WorkloadType.other t) m h = cc

-- Normalising a model that a session already carries, as every read of the store does, gives the
-- same model: no reload can change the setting or refuse it.
pub normalize_model_idem :
    (w : WorkloadType) (m : Text) {r : Text}
    → normalize_model w m ≡ ok r
    → normalize_model w r ≡ ok r
unfolding normalize_model
normalize_model_idem w m {r} h =
    let (trimmed, again) = dispatch_model-trim w (trim_space m) h in rw trimmed again
