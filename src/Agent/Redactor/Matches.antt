-- ===== src/Agent/Redactor/Matches.antt =====
-- The searches of data-plane/cmd/agent/claude_stream.go, `streamingRedactor.drain`, one byte at a time.
use mathlib.Core.List.{Memᴰ}
use session_platform.Prelude.{
  ℕ, suc, ◌<◌, ◌≡◌, refl, sym, ◌∙◌, ap, subst, ◌⊎◌, inl, inr, Bool, true, false, ◌||◌, ◌&&◌, Option,
  none, some, List, [], ◌∷◌, arith, length, ltb, ◌==◌, if◌then◌else◌, Bool-cases,
}
use session_platform.Agent.Bytes.{Bytes}
use session_platform.Agent.Redactor.{
  is_prefix, index, next_index, Match, is_better, consider, best_match,
}
use session_platform.Agent.Redactor.Scan.{
  Apart, head_match, head_match-Found, head_match-none, same_prefix,
}

abbrev pub shifted : Match → Match
shifted none = none
shifted (some (at, len)) = some (suc at, len)

consider-shifted :
    (found : Option ℕ) (len : ℕ) (best : Match)
    → consider (next_index found) len (shifted best) ≡ shifted (consider found len best)
unfolding consider is_better
consider-shifted none len best = refl
consider-shifted (some at) len none = refl
consider-shifted (some at) len (some (match_at, match_len)) = ground arith

pub index-next :
    (x : ℕ) (xs literal : Bytes)
    → is_prefix literal (x ∷ xs) ≡ false
    → index literal (x ∷ xs) ≡ next_index (index literal xs)
unfolding index
index-next x xs literal h = rw (index, h) refl

pub index-here : (s literal : Bytes) → is_prefix literal s ≡ true → index literal s ≡ some 0
unfolding index
index-here [] literal h = rw (index, h) refl
index-here (x ∷ xs) literal h = rw (index, h) refl

-- Where no literal starts at the first byte, the search goes on behind it.
best_match-shifted :
    (literals : List Bytes) (x : ℕ) (xs : Bytes) (best : Match)
    → head_match literals (x ∷ xs) ≡ none
    → best_match literals (x ∷ xs) (shifted best) ≡ shifted (best_match literals xs best)
unfolding best_match
best_match-shifted [] x xs best e = refl
best_match-shifted (l ∷ ls) x xs best e =
    rw
      (
        index-next x xs l (head_match-none (l ∷ ls) (x ∷ xs) l e (Memᴰ.head refl)),
        consider-shifted (index l xs) (length l) best,
      )
      (best_match-shifted ls x xs (consider (index l xs) (length l) best) (ground arith))

-- A match that does not start at the first byte.
abbrev IsLater : Match → Type 0
IsLater none = Unit
IsLater (some (at, len)) = 0 < at

abbrev IsBehind : Option ℕ → Type 0
IsBehind none = Unit
IsBehind (some i) = 0 < i

index-IsLater : (l s : Bytes) → is_prefix l s ≡ false → IsBehind (index l s)
unfolding index
index-IsLater l [] h = rw (index, h) tt
index-IsLater l (x ∷ xs) h = subst IsBehind (sym (index-next x xs l h)) (behind (index l xs))
  where
    behind : (o : Option ℕ) → IsBehind (next_index o)
    behind none = tt
    behind (some i) = omega arith

consider-IsLater :
    (found : Option ℕ) (len : ℕ) (best : Match)
    → IsLater best
    → IsBehind found
    → IsLater (consider found len best)
unfolding consider is_better
consider-IsLater none len best h hf = h
consider-IsLater (some at) len none h hf = hf
consider-IsLater (some at) len (some (match_at, match_len)) h hf =
    kept_later (ltb at match_at || ((at == match_at) && ltb match_len len))
  where
    kept_later : (b : Bool) → IsLater (if b then some (at, len) else some (match_at, match_len))
    kept_later true = hf
    kept_later false = h

consider-here :
    (n : ℕ) (best : Match)
    → IsLater best ⊎ (best ≡ some (0, n))
    → consider (some 0) n best ≡ some (0, n)
unfolding consider is_better
consider-here n none h = refl
consider-here n (some (match_at, match_len)) (inl h) = ground arith
consider-here n (some (match_at, match_len)) (inr h) = ground arith

consider-settled :
    (found : Option ℕ) (len n : ℕ) → IsBehind found → consider found len (some (0, n)) ≡ some (0, n)
unfolding consider is_better
consider-settled none len n h = refl
consider-settled (some at) len n h = ground arith

-- The literal that starts at the first byte is found, whatever was found before behind it.
best_match-head :
    (literals : List Bytes) (s : Bytes) (n : ℕ) (best : Match)
    → ((l : Bytes) → Memᴰ l literals → is_prefix l s ≡ true → length l ≡ n)
    → (head_match literals s ≡ some n × IsLater best) ⊎ (best ≡ some (0, n))
    → best_match literals s best ≡ some (0, n)
unfolding best_match
best_match-head [] s n best same (inl (e, later)) = absurd (ground arith)
best_match-head [] s n best same (inr e) = e
best_match-head (l ∷ ls) s n best same h =
    best_match-head ls s n (consider (index l s) (length l) best)
      (λ m member. same m (Memᴰ.tail member))
      (elim (Bool-cases (is_prefix l s)) [
        | inl starts ↦ inr (
            rw (index-here s l starts, same l (Memᴰ.head refl) starts)
              (consider-here n best (elim h [ inl (e, later) ↦ inl later | inr e ↦ inr e ])))
        | inr no_ ↦ elim h [
          | inl (e, later) ↦ inl (
            ground arith,
            consider-IsLater (index l s) (length l) best later (index-IsLater l s no_),
          )
          | inr e ↦ inr (rw e (consider-settled (index l s) (length l) n (index-IsLater l s no_)))
        ]
      ])

module _ (literals : List Bytes) (apart : Apart literals) where
  same_length :
      (s : Bytes) (n : ℕ)
      → head_match literals s ≡ some n
      → (l : Bytes) → Memᴰ l literals
      → is_prefix l s ≡ true
      → length l ≡ n
  same_length s n e l member h =
      let (l', member', starts, size) = head_match-Found literals s n e in
      ap length (same_prefix l l' s apart member member' h starts) ∙ sym size

  pub best_match-here :
      (s : Bytes) (n : ℕ)
      → head_match literals s ≡ some n
      → best_match literals s none ≡ some (0, n)
  best_match-here s n e = best_match-head literals s n none (same_length s n e) (inl (e, tt))

pub best_match-behind :
    (literals : List Bytes) (x : ℕ) (xs : Bytes)
    → head_match literals (x ∷ xs) ≡ none
    → best_match literals (x ∷ xs) none ≡ shifted (best_match literals xs none)
best_match-behind literals x xs e = best_match-shifted literals x xs none e
