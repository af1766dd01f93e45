-- ===== src/Agent/Archive.antt =====
-- data-plane/cmd/agent/state_archive.go: unpacking the archive of a workload's state. A path is the list of its
-- components, the innermost first, so that its parent is its tail; a cleaned path has no `.`, and `..` only at
-- its outer end. Permissions, times and the faults of the disk, which end a restore, are left out.
pub mod Extract
pub mod Resolve
pub mod Sound
pub mod Restored
pub mod Contained
mod Tests
use session_platform.Prelude.{
  ℕ, Bool, true, false, not, ◌&&◌, ◌||◌, ◌==◌, any, Option, none, some, List, [], ◌∷◌, Text, codes,
  text_eq, is_empty, Result, ok, err, if◌then◌else◌,
}
use session_platform.Session.Errors.{Error, failed}

abbrev pub EntryPath : Type 0
EntryPath = List Text

abbrev pub is_up : Text → Bool
is_up c = text_eq c (codes "..")

-- A component that names nothing.
abbrev pub is_blank : Text → Bool
is_blank c = is_empty c || text_eq c (codes ".")

abbrev onto_first : ℕ → List Text → List Text
onto_first c [] = (c ∷ []) ∷ []
onto_first c (s ∷ ss) = (c ∷ s) ∷ ss

-- `strings.Split(s, "/")`.
unfoldable pub split_path : Text → List Text
split_path [] = [] ∷ []
split_path (c ∷ s) = let rest = split_path s in if c == b'/' then [] ∷ rest else onto_first c rest

unfoldable pub go_up : EntryPath → EntryPath
go_up [] = codes ".." ∷ []
go_up (c ∷ p) = if is_up c then codes ".." ∷ c ∷ p else p

-- `Clean` of a relative path: what follows `p`, from the left.
unfoldable pub clean_onto : List Text → EntryPath → EntryPath
clean_onto [] p = p
clean_onto (c ∷ cs) p = clean_onto cs (if is_blank c then p else if is_up c then go_up p else c ∷ p)

unfoldable pub is_outside : EntryPath → Bool
is_outside [] = false
is_outside (c ∷ []) = is_up c
is_outside (c ∷ d ∷ p) = is_outside (d ∷ p)

abbrev pub is_abs : Text → Bool
is_abs [] = false
is_abs (c ∷ s) = c == b'/'

abbrev has_backslash : Text → Bool
has_backslash s = any (λ c. c == b'\\') s

unfoldable pub clean_claude_archive_name : Text → Result Error EntryPath
clean_claude_archive_name name =
    let clean = clean_onto (split_path name) [] in
    if is_empty name || (has_backslash name || is_abs name)
    then err (failed 40)
    else if is_outside clean
    then err (failed 41)
    else elim clean [ [] ↦ err (failed 41) | c ∷ p ↦ ok (c ∷ p) ]

-- A `..` behind a name, which may be that of a link.
unfoldable pub is_chained : (saw_normal : Bool) → List Text → Bool
is_chained saw_normal [] = false
is_chained saw_normal (c ∷ cs) =
    if is_blank c
    then is_chained saw_normal cs
    else if is_up c
    then saw_normal || is_chained saw_normal cs
    else is_chained true cs

abbrev pub parent : EntryPath → EntryPath
parent [] = []
parent (c ∷ p) = p

unfoldable pub validate_claude_symlink : EntryPath → Text → Result Error Unit
validate_claude_symlink rel link =
    if is_empty link || (has_backslash link || is_abs link)
    then err (failed 42)
    else if is_chained false (split_path link)
    then err (failed 43)
    else if is_outside (clean_onto (split_path link) (parent rel))
    then err (failed 44)
    else ok tt
