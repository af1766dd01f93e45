-- ===== src/Agent/Redactor.antt =====
-- data-plane/cmd/agent/claude_stream.go, `streamingRedactor`: it never lets out the start of a literal
-- that the next bytes may complete.
pub mod Scan
pub mod Matches
pub mod Kept
pub mod Found
pub mod Exact
mod Tests
use session_platform.Prelude.{
  ℕ, zero, suc, ◌+◌, ◌-◌, Bool, true, false, ◌||◌, ◌&&◌, Option, none, some, List, [], ◌∷◌, ◌++◌,
  length, ltb, leb, ◌==◌, if◌then◌else◌, text_eq, codes,
}
use session_platform.Agent.Bytes.{Bytes, take, drop, least}

abbrev pub redacted_literal : Bytes
redacted_literal = codes "[REDACTED]"

unfoldable pub is_prefix : Bytes → Bytes → Bool
is_prefix [] s = true
is_prefix (x ∷ xs) [] = false
is_prefix (x ∷ xs) (y ∷ ys) = (x == y) && is_prefix xs ys

abbrev pub next_index : Option ℕ → Option ℕ
next_index none = none
next_index (some i) = some (suc i)

-- `bytes.Index`
unfoldable pub index : Bytes → Bytes → Option ℕ
index literal [] = if is_prefix literal [] then some 0 else none
index literal (x ∷ xs) =
    if is_prefix literal (x ∷ xs) then some 0 else next_index (index literal xs)

-- Where the best match so far is, and how long.
abbrev pub Match : Type 0
Match = Option (ℕ × ℕ)

unfoldable pub is_better : ℕ → ℕ → Match → Bool
is_better at len none = true
is_better at len (some (match_at, match_len)) =
    ltb at match_at || ((at == match_at) && ltb match_len len)

-- The earliest match counts, and of two at one place the longer.
unfoldable pub consider : Option ℕ → ℕ → Match → Match
consider none len best = best
consider (some at) len best = if is_better at len best then some (at, len) else best

unfoldable pub best_match : List Bytes → Bytes → Match → Match
best_match [] pending best = best
best_match (literal ∷ literals) pending best =
    best_match literals pending (consider (index literal pending) (length literal) best)

-- `n` counts down to `keep`.
unfoldable pub longest_kept : Bytes → Bytes → ℕ → ℕ → ℕ
longest_kept pending literal zero keep = keep
longest_kept pending literal (suc n) keep =
    if leb (suc n) keep
    then keep
    else if text_eq (drop (length pending - suc n) pending) (take (suc n) literal)
    then suc n
    else longest_kept pending literal n keep

unfoldable pub kept : List Bytes → Bytes → ℕ → ℕ
kept [] pending keep = keep
kept (literal ∷ literals) pending keep =
    kept literals pending
      (longest_kept pending literal (least (length literal - 1) (length pending)) keep)

-- What is let out, and what stays pending.
unfoldable pub settle_tail : List Bytes → Bool → Bytes → Bytes × Bytes
settle_tail literals true pending = (pending, [])
settle_tail literals false pending =
    let keep = length pending - kept literals pending 0 in (take keep pending, drop keep pending)

-- A match takes at least one byte off: as many rounds as there are bytes are enough.
unfoldable pub drain_from : ℕ → List Bytes → Bool → Bytes → Bytes × Bytes
drain_from zero literals final pending = ([], pending)
drain_from (suc fuel) literals final [] = ([], [])
drain_from (suc fuel) literals final (x ∷ xs) = elim (best_match literals (x ∷ xs) none) [
  | none ↦ settle_tail literals final (x ∷ xs)
  | some (at, len) ↦
      let (out, rest) = drain_from fuel literals final (drop (at + len) (x ∷ xs)) in
      (take at (x ∷ xs) ++ redacted_literal ++ out, rest)
]

unfoldable pub drain : List Bytes → Bool → Bytes → Bytes × Bytes
drain literals final pending = drain_from (suc (length pending)) literals final pending

pub record Redactor : Type 0 where
  pub literals : List Bytes
  pub pending : Bytes

unfoldable pub keep_nonempty : List Bytes → List Bytes
keep_nonempty [] = []
keep_nonempty ([] ∷ literals) = keep_nonempty literals
keep_nonempty ((x ∷ xs) ∷ literals) = (x ∷ xs) ∷ keep_nonempty literals

unfoldable pub new_streaming_redactor : List Bytes → Redactor
new_streaming_redactor literals = record { literals = keep_nonempty literals; pending = [] }

unfoldable pub push : Redactor → Bytes → Bytes × Redactor
push r p =
    let (out, rest) = drain r.literals false (r.pending ++ p) in (out, record r { pending = rest })

unfoldable pub finish : Redactor → Bytes × Redactor
finish r = let (out, rest) = drain r.literals true r.pending in (out, record r { pending = rest })
