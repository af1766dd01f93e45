-- ===== src/Agent/Redactor/Exact.antt =====
-- `streamingRedactor` of data-plane/cmd/agent/claude_stream.go against the one-pass reference.
use mathlib.Core.List.{append_assoc, append-nil}
use session_platform.Prelude.{
  ℕ, zero, suc, ◌+◌, ◌-◌, ◌<◌, ◌≡◌, refl, sym, ◌∙◌, ap, subst, inl, inr, Bool, true, false, none,
  some, List, [], ◌∷◌, ◌++◌, arith, length, if◌then◌else◌, Bool-cases, Option-cases,
}
use session_platform.Agent.Bytes.{Bytes, take, drop, length-drop}
use session_platform.Agent.Redactor.{
  Redactor, redacted_literal, Match, best_match, kept, settle_tail, drain_from, drain, push, finish,
  keep_nonempty, new_streaming_redactor,
}
use session_platform.Agent.Redactor.Scan.{
  Apart, head_match, is_partial, scan, replace_all, with_out, scan-match, scan-step, scan-partial,
  scan-append, length_of_match,
}
use session_platform.Agent.Redactor.Matches.{shifted, best_match-here, best_match-behind}
use session_platform.Agent.Redactor.Kept.{kept-le, kept-step}
use session_platform.Agent.Redactor.Found.{is_partial_before, best_match-within}

scan-skip :
    (literals : List Bytes) (final : Bool) (skip : ℕ) (s : Bytes)
    → scan literals final skip s ≡ scan literals final 0 (drop skip s)
unfolding scan
scan-skip literals final zero s = refl
scan-skip literals final (suc skip) [] = refl
scan-skip literals final (suc skip) (x ∷ xs) = scan-skip literals final skip xs

shifted-none : (best : Match) → shifted best ≡ none → best ≡ none
shifted-none none e = refl
shifted-none (some m) e = absurd (ground arith)

shifted-some :
    (best : Match) (at len : ℕ)
    → shifted best ≡ some (at, len)
    → (at' : ℕ) × (at ≡ suc at') × (best ≡ some (at', len))
shifted-some none at len e = absurd (ground arith)
shifted-some (some (at', len')) at len e = (at', ground arith, ground arith)

module _ (literals : List Bytes) (apart : Apart literals) where
  settle_tail-nil : (final : Bool) → settle_tail literals final [] ≡ ([], [])
  unfolding settle_tail
  settle_tail-nil true = refl
  settle_tail-nil false = ap (λ k. (take k [], drop k [])) nothing_kept
    where
      nothing_kept : 0 - kept literals [] 0 ≡ 0
      nothing_kept = omega arith

  -- One byte on: it is kept with all that follow, or let out.
  settle_tail-cons :
      (x : ℕ) (xs : Bytes)
      → settle_tail literals false (x ∷ xs) ≡ (
          if is_partial literals (x ∷ xs)
          then ([], x ∷ xs)
          else with_out (x ∷ []) (settle_tail literals false xs))
  unfolding settle_tail
  settle_tail-cons x xs =
      rw (kept-step literals x xs 0 (omega arith))
        (elim (Bool-cases (is_partial literals (x ∷ xs))) [
          | inl p ↦ rw p (ap (λ k. (take k (x ∷ xs), drop k (x ∷ xs))) all_kept)
          | inr p ↦ rw p (ap (λ k. (take k (x ∷ xs), drop k (x ∷ xs))) one_out)
        ])
    where
      all_kept : suc (length xs) - suc (length xs) ≡ 0
      all_kept = omega arith

      one_out : suc (length xs) - kept literals xs 0 ≡ suc (length xs - kept literals xs 0)
      one_out = omega (arith, kept-le literals xs 0 (omega arith))

  no_head : (s : Bytes) → best_match literals s none ≡ none → head_match literals s ≡ none
  no_head s e = elim (Option-cases (head_match literals s)) [
    | inl h ↦ h
    | inr (n, h) ↦ absurd (ground (arith, best_match-here literals apart s n h))
  ]

  none_behind :
      (x : ℕ) (xs : Bytes)
      → best_match literals (x ∷ xs) none ≡ none
      → best_match literals xs none ≡ none
  none_behind x xs e =
      shifted-none (best_match literals xs none)
        (sym (best_match-behind literals x xs (no_head (x ∷ xs) e)) ∙ e)

  -- Without a match, the tail is let out as far as nothing may grow of it.
  settle_tail-scan :
      (final : Bool) (s : Bytes)
      → best_match literals s none ≡ none
      → settle_tail literals final s ≡ scan literals final 0 s
  unfolding scan settle_tail
  settle_tail-scan final [] e = settle_tail-nil final
  settle_tail-scan true (x ∷ xs) e =
      rw (scan-step literals true x xs (no_head (x ∷ xs) e) (inl refl))
        (ap (with_out (x ∷ [])) (settle_tail-scan true xs (none_behind x xs e)))
  settle_tail-scan false (x ∷ xs) e =
      settle_tail-cons x xs ∙ elim (Bool-cases (is_partial literals (x ∷ xs))) as (λ _. Goal) [
        | inl p ↦ rw (scan-partial literals x xs (no_head (x ∷ xs) e) p, p) refl
        | inr p ↦
            rw (scan-step literals false x xs (no_head (x ∷ xs) e) (inr p), p)
              (ap (with_out (x ∷ [])) (settle_tail-scan false xs (none_behind x xs e)))
      ]
    where
      Goal : Type 0
      Goal =
          (if is_partial literals (x ∷ xs)
            then ([], x ∷ xs)
            else with_out (x ∷ []) (settle_tail literals false xs))
          ≡ scan literals false 0 (x ∷ xs)

  scan_from_match :
      (final : Bool) (x : ℕ) (xs : Bytes) (n : ℕ)
      → head_match literals (x ∷ xs) ≡ some n
      → scan literals final 0 (x ∷ xs)
        ≡ with_out redacted_literal (scan literals final 0 (drop (0 + n) (x ∷ xs)))
  scan_from_match final x xs n h =
      rw (shift, scan-match literals final x xs n h)
        (ap (with_out redacted_literal) (scan-skip literals final (n - 1) xs))
    where
      shift : drop (0 + n) (x ∷ xs) ≡ drop (n - 1) xs
      shift = ap (λ k. drop k (x ∷ xs)) taken
        where
          taken : 0 + n ≡ suc (n - 1)
          taken = omega (arith, length_of_match literals x xs n apart h)

  -- A match is replaced, what lies before it is let out, and the scan goes on behind it.
  scan_to_match :
      (final : Bool) (s : Bytes) (at len : ℕ)
      → best_match literals s none ≡ some (at, len)
      → scan literals final 0 s
        ≡ with_out (take at s ++ redacted_literal) (scan literals final 0 (drop (at + len) s))
  scan_to_match final [] at len e =
      absurd (omega (arith, best_match-within literals apart 0 [] at len e))
  scan_to_match final (x ∷ xs) at len e =
      elim (Option-cases (head_match literals (x ∷ xs))) as (λ _. Goal at) [
        | inr (n, h) ↦
            let here = sym (best_match-here literals apart (x ∷ xs) n h) ∙ e in
            subst Here here (scan_from_match final x xs n h)
        | inl h ↦
            let (at', size, found) =
              shifted-some (best_match literals xs none) at len
                (sym (best_match-behind literals x xs h) ∙ e) in
            subst Goal (sym size) (
              scan-step literals final x xs h
                (inr (is_partial_before literals apart x xs at' len found))
              ∙ ap (with_out (x ∷ [])) (scan_to_match final xs at' len found)
              ∙ ap
                  (λ k.
                    with_out (take (suc at') (x ∷ xs) ++ redacted_literal)
                      (scan literals final 0 (drop k (x ∷ xs))))
                  (one_more at'))
      ]
    where
      Goal : ℕ → Type 0
      Goal k =
          scan literals final 0 (x ∷ xs)
          ≡ with_out (take k (x ∷ xs) ++ redacted_literal)
              (scan literals final 0 (drop (k + len) (x ∷ xs)))

      Here : Match → Type 0
      Here none = Unit
      Here (some (k, n)) =
          scan literals final 0 (x ∷ xs)
          ≡ with_out (take k (x ∷ xs) ++ redacted_literal)
              (scan literals final 0 (drop (k + n) (x ∷ xs)))

      one_more : (k : ℕ) → suc (k + len) ≡ suc k + len
      one_more k = omega arith

  drain_from-scan :
      (final : Bool) (fuel : ℕ) (s : Bytes)
      → length s < fuel
      → drain_from fuel literals final s ≡ scan literals final 0 s
  unfolding drain_from scan
  drain_from-scan final zero s h = absurd (omega arith)
  drain_from-scan final (suc fuel) [] h = refl
  drain_from-scan final (suc fuel) (x ∷ xs) h =
      elim (Option-cases (best_match literals (x ∷ xs) none)) as (λ _. Goal) [
        | inl e ↦ rw (drain_from, e) (settle_tail-scan final (x ∷ xs) e)
        | inr ((at, len), e) ↦
            rw (drain_from, e)
              (rw
                (drain_from-scan final fuel (drop (at + len) (x ∷ xs)) (
                  omega (
                    arith,
                    length-drop (at + len) (x ∷ xs),
                    best_match-within literals apart x (x ∷ xs) at len e,
                  )))
                (sym (scan_to_match final (x ∷ xs) at len e)))
      ]
    where
      Goal : Type 0
      Goal = drain_from (suc fuel) literals final (x ∷ xs) ≡ scan literals final 0 (x ∷ xs)

  drain-scan : (final : Bool) (s : Bytes) → drain literals final s ≡ scan literals final 0 s
  unfolding drain
  drain-scan final s = drain_from-scan final (suc (length s)) s (omega arith)

abbrev pub concat : List Bytes → Bytes
concat [] = []
concat (chunk ∷ chunks) = chunk ++ concat chunks

-- What comes out of a redactor that is given the chunks one by one and then finished.
abbrev pub redacted : Redactor → List Bytes → Bytes
redacted r [] = (finish r).0
redacted r (chunk ∷ chunks) = let (out, r') = push r chunk in out ++ redacted r' chunks

redacted-scan :
    (literals : List Bytes) (pending : Bytes) (chunks : List Bytes)
    → Apart literals
    → redacted (record { literals = literals; pending = pending }) chunks
      ≡ (scan literals true 0 (pending ++ concat chunks)).0
unfolding push finish
redacted-scan literals pending [] apart =
    ap (λ r. r.0) (drain-scan literals apart true pending)
    ∙ ap (λ s. (scan literals true 0 s).0) (sym (append-nil pending))
redacted-scan literals pending (chunk ∷ chunks) apart =
    ap (λ r. r.0 ++ redacted (record { literals = literals; pending = r.1 }) chunks)
      (drain-scan literals apart false (pending ++ chunk))
    ∙ ap (◌++◌ first.0) (redacted-scan literals first.1 chunks apart)
    ∙ sym (
        ap (λ r. r.0)
          (scan-append literals true 0 (pending ++ chunk) (concat chunks) apart (omega arith)))
    ∙ ap (λ s. (scan literals true 0 s).0) (append_assoc pending chunk (concat chunks))
  where
    first : Bytes × Bytes
    first = scan literals false 0 (pending ++ chunk)

-- However the output is cut into writes, what leaves the redactor is the whole output with each
-- literal replaced, from the left and without overlaps, if no literal is part of another one.
pub redacted-replaced :
    (literals : List Bytes) (chunks : List Bytes)
    → Apart (keep_nonempty literals)
    → redacted (new_streaming_redactor literals) chunks
      ≡ replace_all (keep_nonempty literals) (concat chunks)
unfolding new_streaming_redactor replace_all
redacted-replaced literals chunks apart = redacted-scan (keep_nonempty literals) [] chunks apart
