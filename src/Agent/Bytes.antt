-- ===== src/Agent/Bytes.antt =====
-- Byte slices as lists, and where data-plane/cmd/agent/claude_stream.go cuts them.
use session_platform.Prelude.{
  ℕ, zero, suc, ◌+◌, ◌-◌, ◌≤◌, ◌≡◌, refl, sym, ◌∙◌, ap, Bool, true, false, not, ◌&&◌, List, [], ◌∷◌,
  ◌++◌, arith, length, ltb, leb, if◌then◌else◌,
}

abbrev pub Bytes : Type 0
Bytes = List ℕ

module _ {ℓ} {A : Type ℓ} where
  abbrev pub take : ℕ → List A → List A
  take zero xs = []
  take (suc n) [] = []
  take (suc n) (x ∷ xs) = x ∷ take n xs

  abbrev pub drop : ℕ → List A → List A
  drop zero xs = xs
  drop (suc n) [] = []
  drop (suc n) (x ∷ xs) = drop n xs

  pub take-append-drop : (n : ℕ) (xs : List A) → take n xs ++ drop n xs ≡ xs
  take-append-drop zero xs = refl
  take-append-drop (suc n) [] = refl
  take-append-drop (suc n) (x ∷ xs) = ap (λ k. x ∷ k) (take-append-drop n xs)

  pub length-take : (n : ℕ) (xs : List A) → n ≤ length xs → length (take n xs) ≡ n
  length-take zero xs h = refl
  length-take (suc n) [] h = absurd (omega arith)
  length-take (suc n) (x ∷ xs) h = ap suc (length-take n xs (omega arith))

  pub length-drop : (n : ℕ) (xs : List A) → length (drop n xs) ≡ length xs - n
  length-drop zero xs = omega arith
  length-drop (suc n) [] = omega arith
  length-drop (suc n) (x ∷ xs) = omega (arith, length-drop n xs)

  drop_nil : (n : ℕ) → drop n [] ≡ []
  drop_nil zero = refl
  drop_nil (suc n) = refl

  pub drop-drop : (m n : ℕ) (xs : List A) → drop m (drop n xs) ≡ drop (n + m) xs
  drop-drop m zero xs = ap (λ k. drop k xs) (omega arith)
  drop-drop m (suc n) [] = drop_nil m ∙ sym (drop_nil (suc n + m))
  drop-drop m (suc n) (x ∷ xs) = drop-drop m n xs ∙ ap (λ k. drop k (x ∷ xs)) shift
    where
      shift : suc (n + m) ≡ suc n + m
      shift = omega arith

  pub take_all : (xs : List A) → take (length xs) xs ≡ xs
  take_all [] = refl
  take_all (x ∷ xs) = ap (λ k. x ∷ k) (take_all xs)

  pub drop_all : (n : ℕ) (xs : List A) → length xs ≤ n → drop n xs ≡ []
  drop_all zero [] h = refl
  drop_all zero (x ∷ xs) h = absurd (omega arith)
  drop_all (suc n) [] h = refl
  drop_all (suc n) (x ∷ xs) h = drop_all n xs (omega arith)

-- A read out of range gives 0; `valid_utf8_prefix_at_most` never makes one.
abbrev pub byte_at : Bytes → ℕ → ℕ
byte_at [] i = 0
byte_at (x ∷ xs) zero = x
byte_at (x ∷ xs) (suc i) = byte_at xs i

-- `utf8.RuneStart`: any byte but a continuation byte.
abbrev pub rune_start : ℕ → Bool
rune_start b = not (leb 128 b && ltb b 192)

unfoldable pub back_off : Bytes → ℕ → ℕ
back_off p zero = 0
back_off p (suc n) = elim (rune_start (byte_at p (suc n))) [ true ↦ suc n | false ↦ back_off p n ]

unfoldable pub valid_utf8_prefix_at_most : Bytes → ℕ → ℕ
valid_utf8_prefix_at_most p limit = if leb (length p) limit then length p else back_off p limit

pub back_off-le : (p : Bytes) (n : ℕ) → back_off p n ≤ n
unfolding back_off
back_off-le p zero = omega arith
back_off-le p (suc n) = ground (arith, back_off-le p n)

pub valid_utf8_prefix_at_most-le :
    (p : Bytes) (limit : ℕ)
    → (valid_utf8_prefix_at_most p limit ≤ limit) × (valid_utf8_prefix_at_most p limit ≤ length p)
unfolding valid_utf8_prefix_at_most
valid_utf8_prefix_at_most-le p limit = ground (arith, back_off-le p limit)

-- `min`
abbrev pub least : ℕ → ℕ → ℕ
least a b = if ltb b a then b else a
