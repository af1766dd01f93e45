-- ===== src/Agent/Redactor/Scan.antt =====
-- The reference for data-plane/cmd/agent/claude_stream.go, `streamingRedactor`: one pass over the
-- bytes, which looks at each position for a literal that starts there.
use mathlib.Core.List.{append_assoc, Memᴰ}
use session_platform.Prelude.{
  ℕ, zero, suc, ◌-◌, ◌≤◌, ◌<◌, ◌≡◌, refl, sym, ◌∙◌, ap, ◌⊎◌, inl, inr, Bool, true, false, not, ◌&&◌,
  Option, none, some, List, [], ◌∷◌, ◌++◌, arith, length, length-append, any, ltb, if◌then◌else◌,
  Bool-cases, Option-cases,
}
use session_platform.Agent.Bytes.{Bytes}
use session_platform.Agent.Redactor.{redacted_literal, is_prefix, index}

-- The literal that starts here.
abbrev pub head_match : List Bytes → Bytes → Option ℕ
head_match [] s = none
head_match (literal ∷ literals) s =
    if is_prefix literal s then some (length literal) else head_match literals s

abbrev pub may_grow : Bytes → Bytes → Bool
may_grow s literal = ltb (length s) (length literal) && is_prefix s literal

-- More bytes may make a literal of it.
abbrev pub is_partial : List Bytes → Bytes → Bool
is_partial literals s = any (may_grow s) literals

abbrev pub with_out : Bytes → Bytes × Bytes → Bytes × Bytes
with_out more (out, rest) = (more ++ out, rest)

-- `skip` counts the bytes of a literal that are still to be passed over. At the end of the input
-- (`final`) a literal that was only begun is no literal.
unfoldable pub scan : List Bytes → Bool → ℕ → Bytes → Bytes × Bytes
scan literals final skip [] = ([], [])
scan literals final (suc skip) (x ∷ xs) = scan literals final skip xs
scan literals final zero (x ∷ xs) = elim (head_match literals (x ∷ xs)) [
  | some len ↦ with_out redacted_literal (scan literals final (len - 1) xs)
  | none ↦
      if not final && is_partial literals (x ∷ xs)
      then ([], x ∷ xs)
      else with_out (x ∷ []) (scan literals final zero xs)
]

unfoldable pub replace_all : List Bytes → Bytes → Bytes
replace_all literals s = (scan literals true 0 s).0

-- Each literal has a byte, and none is part of another one.
pub record Apart (literals : List Bytes) : Type 0 where
  pub nonempty : (l : Bytes) → Memᴰ l literals → 0 < length l
  pub apart :
      (l l' : Bytes) (i : ℕ) → Memᴰ l literals → Memᴰ l' literals → index l l' ≡ some i → l ≡ l'

pub index_of_prefix : (l s : Bytes) → is_prefix l s ≡ true → index l s ≡ some 0
unfolding index
index_of_prefix l [] h = rw h refl
index_of_prefix l (x ∷ xs) h = rw h refl

pub is_prefix-append : (l s t : Bytes) → is_prefix l s ≡ true → is_prefix l (s ++ t) ≡ true
unfolding is_prefix
is_prefix-append [] s t h = refl
is_prefix-append (x ∷ xs) [] t h = absurd (ground arith)
is_prefix-append (x ∷ xs) (y ∷ ys) t h = ground (arith, is_prefix-append xs ys t)

pub length_of_prefix : (l s : Bytes) → is_prefix l s ≡ true → length l ≤ length s
unfolding is_prefix
length_of_prefix [] s h = omega arith
length_of_prefix (x ∷ xs) [] h = absurd (ground arith)
length_of_prefix (x ∷ xs) (y ∷ ys) h = ground (arith, length_of_prefix xs ys)

-- A literal at the start of `s ++ t` is one of `s`, or `s` is the start of it.
is_prefix_of_append :
    (l s t : Bytes) → is_prefix l (s ++ t) ≡ true → (is_prefix l s ≡ true) ⊎ (may_grow s l ≡ true)
unfolding is_prefix
is_prefix_of_append [] s t h = inl refl
is_prefix_of_append (x ∷ xs) [] t h = inr (ground arith)
is_prefix_of_append (x ∷ xs) (y ∷ ys) t h = elim (is_prefix_of_append xs ys t (ground arith)) [
  | inl e ↦ inl (ground arith)
  | inr e ↦ inr (ground arith)
]

may_grow-append : (s t l : Bytes) → may_grow (s ++ t) l ≡ true → may_grow s l ≡ true
unfolding is_prefix
may_grow-append [] t [] h = ground (arith, length-append [] t)
may_grow-append [] t (z ∷ zs) h = ground arith
may_grow-append (x ∷ xs) t [] h = ground arith
may_grow-append (x ∷ xs) t (z ∷ zs) h = ground (arith, may_grow-append xs t zs)

-- Two starts of the same bytes are one the start of the other.
comparable :
    (l l' s : Bytes)
    → is_prefix l s ≡ true
    → is_prefix l' s ≡ true
    → (is_prefix l l' ≡ true) ⊎ (is_prefix l' l ≡ true)
unfolding is_prefix
comparable [] l' s h h' = inl refl
comparable (x ∷ xs) [] s h h' = inr refl
comparable (x ∷ xs) (y ∷ ys) [] h h' = absurd (ground arith)
comparable (x ∷ xs) (y ∷ ys) (z ∷ zs) h h' =
    elim (comparable xs ys zs (ground arith) (ground arith)) [
      | inl e ↦ inl (ground arith)
      | inr e ↦ inr (ground arith)
    ]

pub head_match-Found :
    (literals : List Bytes) (s : Bytes) (n : ℕ)
    → head_match literals s ≡ some n
    → (l : Bytes) × Memᴰ l literals × (is_prefix l s ≡ true) × (n ≡ length l)
head_match-Found [] s n e = absurd (ground arith)
head_match-Found (l ∷ ls) s n e = elim (Bool-cases (is_prefix l s)) [
  | inl yes_ ↦ (l, Memᴰ.head refl, yes_, ground arith)
  | inr no_ ↦
      let (m, member, starts, size) = head_match-Found ls s n (ground arith) in
      (m, Memᴰ.tail member, starts, size)
]

pub head_match-none :
    (literals : List Bytes) (s l : Bytes)
    → head_match literals s ≡ none
    → Memᴰ l literals
    → is_prefix l s ≡ false
head_match-none [] s l e member = elim member [ ]
head_match-none (l ∷ ls) s _ e (Memᴰ.head h) = rw h (ground arith)
head_match-none (l ∷ ls) s m e (Memᴰ.tail member) = head_match-none ls s m (ground arith) member

-- Literals that are apart never start at the same place.
pub same_prefix :
    {literals : List Bytes} (l l' s : Bytes)
    → Apart literals
    → Memᴰ l literals
    → Memᴰ l' literals
    → is_prefix l s ≡ true
    → is_prefix l' s ≡ true
    → l ≡ l'
same_prefix l l' s apart m m' h h' = elim (comparable l l' s h h') [
  | inl e ↦ apart.apart l l' 0 m m' (index_of_prefix l l' e)
  | inr e ↦ sym (apart.apart l' l 0 m' m (index_of_prefix l' l e))
]

head_match-some :
    (literals : List Bytes) (s l : Bytes)
    → Memᴰ l literals
    → is_prefix l s ≡ true
    → (n : ℕ) × (head_match literals s ≡ some n)
head_match-some literals s l member h = elim (Option-cases (head_match literals s)) [
  | inl e ↦ absurd (ground (arith, head_match-none literals s l e member))
  | inr found ↦ found
]

head_match-append_some :
    (literals : List Bytes) (s t : Bytes) (n : ℕ)
    → Apart literals
    → head_match literals s ≡ some n
    → head_match literals (s ++ t) ≡ some n
head_match-append_some literals s t n apart e =
    let (l, member, starts, size) = head_match-Found literals s n e in
    let (n', e') = head_match-some literals (s ++ t) l member (is_prefix-append l s t starts) in
    let (l', member', starts', size') = head_match-Found literals (s ++ t) n' e' in
    let same =
      same_prefix l l' (s ++ t) apart member member' (is_prefix-append l s t starts) starts' in
    e' ∙ ap some (omega (arith, size, size', ap length same))

head_match-append_none :
    (literals : List Bytes) (s t : Bytes)
    → head_match literals s ≡ none
    → is_partial literals s ≡ false
    → head_match literals (s ++ t) ≡ none
head_match-append_none [] s t e p = refl
head_match-append_none (l ∷ ls) s t e p = elim (Bool-cases (is_prefix l (s ++ t))) [
  | inl yes_ ↦ absurd (ground (arith, is_prefix_of_append l s t yes_))
  | inr no_ ↦ ground (arith, head_match-append_none ls s t)
]

is_partial-append :
    (literals : List Bytes) (s t : Bytes)
    → is_partial literals s ≡ false
    → is_partial literals (s ++ t) ≡ false
is_partial-append [] s t p = refl
is_partial-append (l ∷ ls) s t p = ground (arith, may_grow-append s t l, is_partial-append ls s t)

module _ (literals : List Bytes) (final : Bool) (x : ℕ) (xs : Bytes) where
  pub scan-match :
      (len : ℕ)
      → head_match literals (x ∷ xs) ≡ some len
      → scan literals final 0 (x ∷ xs)
        ≡ with_out redacted_literal (scan literals final (len - 1) xs)
  unfolding scan
  scan-match len e = rw (scan, e) refl

  pub scan-step :
      head_match literals (x ∷ xs) ≡ none
      → (final ≡ true) ⊎ (is_partial literals (x ∷ xs) ≡ false)
      → scan literals final 0 (x ∷ xs) ≡ with_out (x ∷ []) (scan literals final 0 xs)
  unfolding scan
  scan-step e (inl p) = rw (scan, e, p) refl
  scan-step e (inr p) = rw (scan, e) (rw p (after final))
    where
      after :
          (b : Bool)
          → (if not b && false then ([], x ∷ xs) else with_out (x ∷ []) (scan literals final 0 xs))
            ≡ with_out (x ∷ []) (scan literals final 0 xs)
      after true = refl
      after false = refl

pub scan-partial :
    (literals : List Bytes) (x : ℕ) (xs : Bytes)
    → head_match literals (x ∷ xs) ≡ none
    → is_partial literals (x ∷ xs) ≡ true
    → scan literals false 0 (x ∷ xs) ≡ ([], x ∷ xs)
unfolding scan
scan-partial literals x xs e p = rw (scan, e, p) refl

pub with_out-with_out :
    (a b : Bytes) (r : Bytes × Bytes) → with_out a (with_out b r) ≡ with_out (a ++ b) r
with_out-with_out a b r = ap (λ o. (o, r.1)) (sym (append_assoc a b r.0))

pub length_of_match :
    (literals : List Bytes) (x : ℕ) (xs : Bytes) (len : ℕ)
    → Apart literals
    → head_match literals (x ∷ xs) ≡ some len
    → (0 < len) × (len ≤ suc (length xs))
length_of_match literals x xs len apart e =
    let (l, member, starts, size) = head_match-Found literals (x ∷ xs) len e in
    omega (arith, size, apart.nonempty l member, length_of_prefix l (x ∷ xs) starts)

-- What was let out of the first bytes stays: the rest goes on with what was kept of them.
pub scan-append :
    (literals : List Bytes) (final : Bool) (skip : ℕ) (s t : Bytes)
    → Apart literals
    → skip ≤ length s
    → let (out, rest) = scan literals false skip s in
      scan literals final skip (s ++ t) ≡ with_out out (scan literals final 0 (rest ++ t))
unfolding scan
scan-append literals final zero [] t apart h = refl
scan-append literals final (suc skip) [] t apart h = absurd (omega arith)
scan-append literals final (suc skip) (x ∷ xs) t apart h =
    scan-append literals final skip xs t apart (omega arith)
scan-append literals final zero (x ∷ xs) t apart h =
    elim (Option-cases (head_match literals (x ∷ xs))) as (λ _. Goal) [
      | inl e ↦ elim (Bool-cases (is_partial literals (x ∷ xs))) as (λ _. Goal) [
        | inl p ↦ rw (scan-partial literals x xs e p) refl
        | inr p ↦ rw (
          scan-step literals final x (xs ++ t) (head_match-append_none literals (x ∷ xs) t e p)
              (inr (is_partial-append literals (x ∷ xs) t p)),
          scan-step literals false x xs e (inr p),
          scan-append literals final 0 xs t apart (omega arith),
        )
      ]
      | inr (len, e) ↦ rw (
        scan-match literals final x (xs ++ t) len
            (head_match-append_some literals (x ∷ xs) t len apart e),
        scan-match literals false x xs len e,
        scan-append literals final (len - 1) xs t apart
            (omega (arith, length_of_match literals x xs len apart e)),
      )
    ]
  where
    Goal : Type 0
    Goal =
        let (out, rest) = scan literals false 0 (x ∷ xs) in
        scan literals final 0 (x ∷ (xs ++ t)) ≡ with_out out (scan literals final 0 (rest ++ t))
