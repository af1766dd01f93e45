-- ===== src/Agent/Redactor/Kept.antt =====
-- What `streamingRedactor.drain` of data-plane/cmd/agent/claude_stream.go keeps back, one byte at a time.
use native.Mathlib.Decide.{dec_lt}
use session_platform.Prelude.{
  ℕ, zero, suc, ◌-◌, ◌≤◌, ◌<◌, ◌≡◌, refl, ap, inl, inr, false, ◌&&◌, List, [], ◌∷◌, arith, length,
  ◌==◌, if◌then◌else◌, Bool-cases, text_eq,
}
use session_platform.Agent.Bytes.{Bytes, take, drop, least}
use session_platform.Agent.Redactor.{is_prefix, longest_kept, kept}
use session_platform.Agent.Redactor.Scan.{may_grow, is_partial}

text_eq-take : (s l : Bytes) → length s ≤ length l → text_eq s (take (length s) l) ≡ is_prefix s l
unfolding text_eq is_prefix
text_eq-take [] l h = refl
text_eq-take (x ∷ xs) [] h = absurd (omega arith)
text_eq-take (x ∷ xs) (y ∷ ys) h = ap (λ b. (x == y) && b) (text_eq-take xs ys (omega arith))

pub longest_kept-le :
    (s l : Bytes) (n keep bound : ℕ) → n ≤ bound → keep ≤ bound → longest_kept s l n keep ≤ bound
unfolding longest_kept
longest_kept-le s l zero keep bound hn hk = hk
longest_kept-le s l (suc n) keep bound hn hk = ground (arith, longest_kept-le s l n keep bound)

-- Up to the length of the rest, the first byte makes no difference.
longest_kept-behind :
    (x : ℕ) (xs l : Bytes) (n keep : ℕ)
    → n ≤ length xs
    → longest_kept (x ∷ xs) l n keep ≡ longest_kept xs l n keep
unfolding longest_kept
longest_kept-behind x xs l zero keep h = refl
longest_kept-behind x xs l (suc n) keep h =
    rw (longest_kept-behind x xs l n keep (omega arith), same) refl
  where
    same : drop (suc (length xs) - suc n) (x ∷ xs) ≡ drop (length xs - suc n) xs
    same = ap (λ k. drop k (x ∷ xs)) shift
      where
        shift : suc (length xs) - suc n ≡ suc (length xs - suc n)
        shift = omega arith

longest_kept-settled : (s l : Bytes) (n keep : ℕ) → n ≤ keep → longest_kept s l n keep ≡ keep
unfolding longest_kept
longest_kept-settled s l zero keep h = refl
longest_kept-settled s l (suc n) keep h = ground arith

-- All of the bytes are kept where they are the start of the literal.
longest_kept-all :
    (x : ℕ) (xs l : Bytes) (keep : ℕ)
    → keep ≤ length xs
    → length xs < length l
    → longest_kept (x ∷ xs) l (suc (length xs)) keep
      ≡ (if is_prefix (x ∷ xs) l then suc (length xs) else longest_kept xs l (length xs) keep)
unfolding longest_kept
longest_kept-all x xs l keep hk hl =
    rw
      (
        ← text_eq-take (x ∷ xs) l (omega arith),
        longest_kept-behind x xs l (length xs) keep (omega arith),
        whole,
      )
      (ground arith)
  where
    whole : drop (suc (length xs) - suc (length xs)) (x ∷ xs) ≡ x ∷ xs
    whole = ap (λ k. drop k (x ∷ xs)) none_off
      where
        none_off : suc (length xs) - suc (length xs) ≡ 0
        none_off = omega arith

abbrev width : Bytes → Bytes → ℕ
width l s = least (length l - 1) (length s)

kept_step :
    (x : ℕ) (xs l : Bytes) (keep : ℕ)
    → keep ≤ length xs
    → longest_kept (x ∷ xs) l (width l (x ∷ xs)) keep
      ≡ (if may_grow (x ∷ xs) l then suc (length xs) else longest_kept xs l (width l xs) keep)
kept_step x xs l keep h = elim (dec_lt (suc (length xs)) (length l)) as (λ _. Goal) [
  | yes longer ↦
      rw (wide longer, wide_behind longer, grows longer)
        (longest_kept-all x xs l keep h (omega arith))
  | no shorter ↦
      rw (narrow shorter, narrow_behind shorter, cannot_grow shorter)
        (longest_kept-behind x xs l (length l - 1) keep (omega arith))
]
  where
    Goal : Type 0
    Goal =
        longest_kept (x ∷ xs) l (width l (x ∷ xs)) keep
        ≡ (if may_grow (x ∷ xs) l then suc (length xs) else longest_kept xs l (width l xs) keep)

    wide : suc (length xs) < length l → width l (x ∷ xs) ≡ suc (length xs)
    wide longer = ground arith

    wide_behind : suc (length xs) < length l → width l xs ≡ length xs
    wide_behind longer = ground arith

    grows : suc (length xs) < length l → may_grow (x ∷ xs) l ≡ is_prefix (x ∷ xs) l
    grows longer = ground arith

    narrow : ¬ (suc (length xs) < length l) → width l (x ∷ xs) ≡ length l - 1
    narrow shorter = ground arith

    narrow_behind : ¬ (suc (length xs) < length l) → width l xs ≡ length l - 1
    narrow_behind shorter = ground arith

    cannot_grow : ¬ (suc (length xs) < length l) → may_grow (x ∷ xs) l ≡ false
    cannot_grow shorter = ground arith

width-le : (l s : Bytes) → width l s ≤ length s
width-le l s = ground arith

kept-settled : (literals : List Bytes) (s : Bytes) → kept literals s (length s) ≡ length s
unfolding kept
kept-settled [] s = refl
kept-settled (l ∷ ls) s =
    rw (longest_kept-settled s l (width l s) (length s) (width-le l s)) (kept-settled ls s)

pub kept-le :
    (literals : List Bytes) (s : Bytes) (keep : ℕ)
    → keep ≤ length s
    → kept literals s keep ≤ length s
unfolding kept
kept-le [] s keep h = h
kept-le (l ∷ ls) s keep h =
    kept-le ls s (longest_kept s l (width l s) keep)
      (longest_kept-le s l (width l s) keep (length s) (width-le l s) h)

-- All of the bytes are kept where more of them may make a literal, and as many as of the rest otherwise.
pub kept-step :
    (literals : List Bytes) (x : ℕ) (xs : Bytes) (keep : ℕ)
    → keep ≤ length xs
    → kept literals (x ∷ xs) keep
      ≡ (if is_partial literals (x ∷ xs) then suc (length xs) else kept literals xs keep)
unfolding kept
kept-step [] x xs keep h = refl
kept-step (l ∷ ls) x xs keep h =
    rw (kept_step x xs l keep h) (elim (Bool-cases (may_grow (x ∷ xs) l)) [
      | inl g ↦ rw g (kept-settled ls (x ∷ xs))
      | inr g ↦ rw g (
          kept-step ls x xs (longest_kept xs l (width l xs) keep)
            (longest_kept-le xs l (width l xs) keep (length xs) (width-le l xs) h))
    ])
