-- ===== src/RepoAccess/Names.antt =====
-- control-plane/internal/repoaccess/store.go: the canonical name of a repository.
use session_platform.Prelude.{
  ℕ, ◌+◌, Bool, true, false, not, ◌&&◌, ◌||◌, ◌==◌, leb, [], ◌∷◌, map, Text, codes, text_eq,
  is_empty, ◌≡◌, refl, subst, arith, Result, ok, err, if◌then◌else◌,
}
use session_platform.Session.Errors.{Error, failed}
use session_platform.Session.Models.{trim_space, is_alnum}

-- `[A-Za-z0-9_.-]`.
unfoldable pub is_repo_char : ℕ → Bool
is_repo_char c = is_alnum c || ((c == b'_') || ((c == b'.') || (c == b'-')))

unfoldable pub all_repo_chars : Text → Bool
all_repo_chars [] = true
all_repo_chars (c ∷ s) = is_repo_char c && all_repo_chars s

-- What `repoPattern` asks of what follows a first part that has a character already.
unfoldable pub matches_rest : Text → Bool
matches_rest [] = false
matches_rest (c ∷ s) =
    if c == b'/' then not (is_empty s) && all_repo_chars s else is_repo_char c && matches_rest s

unfoldable pub matches_repo : Text → Bool
matches_repo [] = false
matches_repo (c ∷ s) = is_repo_char c && matches_rest s

-- `strings.Cut` at the first slash.
unfoldable pub cut_slash : Text → Text × Text
cut_slash [] = ([], [])
cut_slash (c ∷ s) =
    let (owner, name) = cut_slash s in if c == b'/' then ([], s) else (c ∷ owner, name)

-- `strings.TrimSuffix(s, ".git")`.
unfoldable pub trim_git : Text → Text
trim_git [] = []
trim_git (c ∷ s) = let rest = trim_git s in if text_eq (c ∷ s) (codes ".git") then [] else c ∷ rest

unfoldable pub lower : ℕ → ℕ
lower c = if leb b'A' c && leb c b'Z' then c + 32 else c

abbrev is_dots : Text → Bool
is_dots s = text_eq s (codes ".") || text_eq s (codes "..")

unfoldable pub normalize_repo : Text → Result Error Text
normalize_repo raw =
    let repo = trim_git (trim_space raw) in
    if not (matches_repo repo)
    then err (failed 80)
    else if is_dots ((cut_slash repo).0) || is_dots ((cut_slash repo).1)
    then err (failed 80)
    else ok (map lower repo)

-- The form of a stored name.
pub record IsCanonical (repo : Text) : Type 0 where
  pub matching : matches_repo repo ≡ true
  pub lowered : map lower repo ≡ repo

lower-char : (c : ℕ) → is_repo_char c ≡ true → is_repo_char (lower c) ≡ true
unfolding is_repo_char lower is_alnum
lower-char c h = ground (arith, h)

lower-slash : (c : ℕ) → (lower c == b'/') ≡ (c == b'/')
unfolding lower
lower-slash c = ground arith

lower_idem : (c : ℕ) → lower (lower c) ≡ lower c
unfolding lower
lower_idem c = ground arith

lower-all : (s : Text) → all_repo_chars s ≡ true → all_repo_chars (map lower s) ≡ true
unfolding all_repo_chars
lower-all [] h = refl
lower-all (c ∷ s) h = ground (arith, h, lower-char c, lower-all s)

lower-rest : (s : Text) → matches_rest s ≡ true → matches_rest (map lower s) ≡ true
unfolding matches_rest
lower-rest [] h = h
lower-rest (c ∷ []) h = ground (arith, h, lower-char c, lower-slash c)
lower-rest (c ∷ d ∷ s) h =
    ground (arith, h, lower-char c, lower-slash c, lower-all (d ∷ s), lower-rest (d ∷ s))

lower-matches : (s : Text) → matches_repo s ≡ true → matches_repo (map lower s) ≡ true
unfolding matches_repo
lower-matches [] h = h
lower-matches (c ∷ s) h = ground (arith, h, lower-char c, lower-rest s)

map-lower_idem : (s : Text) → map lower (map lower s) ≡ map lower s
map-lower_idem [] = refl
map-lower_idem (c ∷ s) = λ i. lower_idem c i ∷ map-lower_idem s i

lowered-IsCanonical : (s : Text) → matches_repo s ≡ true → IsCanonical (map lower s)
lowered-IsCanonical s h = record { matching = lower-matches s h; lowered = map-lower_idem s }

pub normalize_repo-IsCanonical :
    (raw : Text) {repo : Text} → normalize_repo raw ≡ ok repo → IsCanonical repo
unfolding normalize_repo
normalize_repo-IsCanonical raw h =
    subst IsCanonical (ground (arith, h))
      (lowered-IsCanonical (trim_git (trim_space raw)) (ground (arith, h)))
