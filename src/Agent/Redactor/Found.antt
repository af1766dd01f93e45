-- ===== src/Agent/Redactor/Found.antt =====
-- What the search of data-plane/cmd/agent/claude_stream.go, `streamingRedactor.drain`, finds is there.
use mathlib.Core.List.{Memᴰ}
use session_platform.Prelude.{
  ℕ, suc, ◌+◌, ◌≤◌, ◌<◌, ◌≡◌, refl, sym, ◌∙◌, ap, ◌⊎◌, inl, inr, true, false, Option, none, some,
  List, [], ◌∷◌, arith, length, Bool-cases,
}
use session_platform.Agent.Bytes.{Bytes}
use session_platform.Agent.Redactor.{
  is_prefix, index, next_index, Match, is_better, consider, best_match,
}
use session_platform.Agent.Redactor.Scan.{Apart, may_grow, is_partial, length_of_prefix}
use session_platform.Agent.Redactor.Matches.{index-next, index-here}

next_index-some :
    (o : Option ℕ) (i : ℕ) → next_index o ≡ some i → (j : ℕ) × (o ≡ some j) × (i ≡ suc j)
next_index-some none i e = absurd (ground arith)
next_index-some (some j) i e = (j, refl, ground arith)

index-le : (l s : Bytes) (i : ℕ) → index l s ≡ some i → i + length l ≤ length s
unfolding index
index-le l [] i e = elim (Bool-cases (is_prefix l [])) [
  | inl h ↦ ground (arith, index-here [] l h, length_of_prefix l [] h)
  | inr h ↦ absurd (ground arith)
]
index-le l (x ∷ xs) i e = elim (Bool-cases (is_prefix l (x ∷ xs))) [
  | inl h ↦ ground (arith, index-here (x ∷ xs) l h, length_of_prefix l (x ∷ xs) h)
  | inr h ↦
      let (j, found, size) = next_index-some (index l xs) i (sym (index-next x xs l h) ∙ e) in
      omega (arith, size, index-le l xs j found)
]

start_of_start :
    (l s t : Bytes) → is_prefix l s ≡ true → is_prefix s t ≡ true → is_prefix l t ≡ true
unfolding is_prefix
start_of_start [] s t h h' = refl
start_of_start (x ∷ xs) [] t h h' = absurd (ground arith)
start_of_start (x ∷ xs) (y ∷ ys) [] h h' = absurd (ground arith)
start_of_start (x ∷ xs) (y ∷ ys) (z ∷ zs) h h' = ground (arith, start_of_start xs ys zs)

-- What is part of the start of `t` is part of `t`.
index_of_start :
    (l s t : Bytes) (i : ℕ)
    → is_prefix s t ≡ true
    → index l s ≡ some i
    → (j : ℕ) × (index l t ≡ some j)
unfolding index is_prefix
index_of_start l [] t i h e = elim (Bool-cases (is_prefix l [])) [
  | inl starts ↦ (0, index-here t l (start_of_start l [] t starts h))
  | inr no_ ↦ absurd (ground arith)
]
index_of_start l (x ∷ xs) [] i h e = absurd (ground arith)
index_of_start l (x ∷ xs) (z ∷ zs) i h e = elim (Bool-cases (is_prefix l (x ∷ xs))) [
  | inl starts ↦ (0, index-here (z ∷ zs) l (start_of_start l (x ∷ xs) (z ∷ zs) starts h))
  | inr later ↦
      let (i', found, _) = next_index-some (index l xs) i (sym (index-next x xs l later) ∙ e) in
      let (j, found') = index_of_start l xs zs i' (ground arith) found in
      elim (Bool-cases (is_prefix l (z ∷ zs))) [
        | inl here ↦ (0, index-here (z ∷ zs) l here)
        | inr behind ↦ (suc j, index-next z zs l behind ∙ ap next_index found')
      ]
]

considered :
    (o : Option ℕ) (n at len : ℕ) (best : Match)
    → consider o n best ≡ some (at, len)
    → ((o ≡ some at) × (len ≡ n)) ⊎ (best ≡ some (at, len))
unfolding consider
considered none n at len best e = inr e
considered (some i) n at len best e = elim (Bool-cases (is_better i n best)) [
  | inl b ↦ inl (ground arith)
  | inr b ↦ inr (ground arith)
]

best_match-Found :
    (literals : List Bytes) (s : Bytes) (best : Match) (at len : ℕ)
    → best_match literals s best ≡ some (at, len)
    → ((l : Bytes) × Memᴰ l literals × (index l s ≡ some at) × (len ≡ length l))
      ⊎ (best ≡ some (at, len))
unfolding best_match
best_match-Found [] s best at len e = inr e
best_match-Found (l ∷ ls) s best at len e =
    elim (best_match-Found ls s (consider (index l s) (length l) best) at len e) [
      | inl (m, member, found, size) ↦ inl (m, Memᴰ.tail member, found, size)
      | inr e' ↦ elim (considered (index l s) (length l) at len best e') [
        | inl (found, size) ↦ inl (l, Memᴰ.head refl, found, size)
        | inr same ↦ inr same
      ]
    ]

index_behind :
    (l : Bytes) (x : ℕ) (xs : Bytes) (i : ℕ)
    → index l xs ≡ some i
    → (j : ℕ) × (index l (x ∷ xs) ≡ some j)
index_behind l x xs i e = elim (Bool-cases (is_prefix l (x ∷ xs))) [
  | inl here ↦ (0, index-here (x ∷ xs) l here)
  | inr behind ↦ (suc i, index-next x xs l behind ∙ ap next_index e)
]

is_partial-Grows :
    (literals : List Bytes) (s : Bytes)
    → is_partial literals s ≡ true
    → (l : Bytes) × Memᴰ l literals × (may_grow s l ≡ true)
is_partial-Grows [] s p = absurd (ground arith)
is_partial-Grows (l ∷ ls) s p = elim (Bool-cases (may_grow s l)) [
  | inl g ↦ (l, Memᴰ.head refl, g)
  | inr g ↦
      let (m, member, grows) = is_partial-Grows ls s (ground arith) in (m, Memᴰ.tail member, grows)
]

module _ (literals : List Bytes) (apart : Apart literals) (x : ℕ) (xs : Bytes) (at len : ℕ) where
  -- A literal that is there in full behind the first byte cannot be part of one that only begins at it.
  pub is_partial_before :
      best_match literals xs none ≡ some (at, len) → is_partial literals (x ∷ xs) ≡ false
  is_partial_before e = elim (Bool-cases (is_partial literals (x ∷ xs))) [
    | inr p ↦ p
    | inl p ↦ elim (best_match-Found literals xs none at len e) [
      | inr none_ ↦ absurd (ground arith)
      | inl (l, member, found, size) ↦
          let (l', member', grows) = is_partial-Grows literals (x ∷ xs) p in
          absurd (too_long l l' member member' found grows)
    ]
  ]
    where
      too_long :
          (l l' : Bytes)
          → Memᴰ l literals
          → Memᴰ l' literals
          → index l xs ≡ some at
          → may_grow (x ∷ xs) l' ≡ true
          → ⊥
      too_long l l' m m' found grows =
          let (i, found') = index_behind l x xs at found in
          let (j, inside) = index_of_start l (x ∷ xs) l' i (ground arith) found' in
          ground (arith, ap length (apart.apart l l' j m m' inside), index-le l xs at found)

  pub best_match-within :
      best_match literals xs none ≡ some (at, len) → (0 < len) × (at + len ≤ length xs)
  best_match-within e = elim (best_match-Found literals xs none at len e) [
    | inr none_ ↦ absurd (ground arith)
    | inl (l, member, found, size) ↦
        omega (arith, size, index-le l xs at found, apart.nonempty l member)
  ]
