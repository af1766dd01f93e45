-- ===== src/Agent/Archive/Extract.antt =====
-- data-plane/cmd/agent/state_archive.go: restoreStateArchive up to the installation, and what it does with an
-- entry. The tar reader is the list of the headers that it returns, each with its contents.
use session_platform.Prelude.{
  ℕ, suc, ltb, Bool, true, false, not, ◌&&◌, ◌||◌, any, length, Option, none, some, List, [], ◌∷◌,
  Text, codes, text_eq, Result, ok, err, and_then, if◌then◌else◌,
}
use session_platform.Session.Errors.{Error, failed}
use session_platform.Agent.Bytes.{Bytes}
use session_platform.Agent.Archive.{
  EntryPath, is_up, is_outside, clean_claude_archive_name, validate_claude_symlink,
}

pub data Node : Type 0 where
  directory : Node
  regular : (contents : Bytes) → Node
  symlink : (target : Text) → Node

unfoldable pub path_eq : EntryPath → EntryPath → Bool
path_eq [] [] = true
path_eq [] (d ∷ q) = false
path_eq (c ∷ p) [] = false
path_eq (c ∷ p) (d ∷ q) = text_eq c d && path_eq p q

-- A staging directory: what it holds at each path, itself at the empty one.
abbrev pub Tree : Type 0
Tree = List (EntryPath × Node)

-- `os.Lstat`.
unfoldable pub lstat : EntryPath → Tree → Option Node
lstat p [] = none
lstat p ((q, node) ∷ tree) = if path_eq q p then some node else lstat p tree

-- `os.Mkdir` where there is nothing; a directory is left alone.
unfoldable pub make_directory : EntryPath → Tree → Result Error Tree
make_directory p tree = elim (lstat p tree) [
  | none ↦ ok ((p, directory) ∷ tree)
  | some node ↦ elim node [
    | directory ↦ ok tree
    | regular contents ↦ err (failed 50)
    | symlink target ↦ err (failed 50)
  ]
]

-- One component at a time from the root on.
unfoldable pub ensure_safe_claude_parents : EntryPath → Tree → Result Error Tree
ensure_safe_claude_parents [] tree = make_directory [] tree
ensure_safe_claude_parents (c ∷ p) tree =
    and_then (ensure_safe_claude_parents p tree)
      λ tree. if is_up c then err (failed 51) else make_directory (c ∷ p) tree

-- `O_EXCL`, or a test by Lstat: nothing may be there.
unfoldable pub create_new : EntryPath → Node → Tree → Result Error Tree
create_new p node tree = elim (lstat p tree) [
  | none ↦ ok ((p, node) ∷ tree)
  | some other ↦ err (failed 52)
]

pub data TypeFlag : Type 0 where
  type_dir type_reg type_symlink other_type : TypeFlag

pub record Header : Type 0 where
  pub name : Text
  pub link_name : Text
  pub type_flag : TypeFlag
  pub contents : Bytes

abbrev is_directory : TypeFlag → Bool
is_directory type_dir = true
is_directory _ = false

abbrev is_regular : TypeFlag → Bool
is_regular type_reg = true
is_regular _ = false

unfoldable pub place : Header → EntryPath → Tree → Result Error Tree
place header dst tree = elim header.type_flag [
  | type_dir ↦ make_directory dst tree
  | type_reg ↦ create_new dst (regular header.contents) tree
  | type_symlink ↦
      and_then (validate_claude_symlink dst header.link_name)
        λ valid. create_new dst (symlink header.link_name) tree
  | other_type ↦ err (failed 53)
]

-- `rel` is clean, so that `safeClaudeArchiveDestination` returns it below the root, or refuses it.
unfoldable pub extract_claude_state_entry : Header → EntryPath → Tree → Result Error Tree
extract_claude_state_entry header [] tree =
    if is_directory header.type_flag then place header [] tree else err (failed 54)
extract_claude_state_entry header (c ∷ p) tree =
    if is_outside (c ∷ p)
    then err (failed 55)
    else and_then (ensure_safe_claude_parents p tree) (place header (c ∷ p))

abbrev pub max_claude_archive_entries : ℕ
max_claude_archive_entries = 200_000

abbrev pub max_claude_archive_path_bytes : ℕ
max_claude_archive_path_bytes = 4096

abbrev pub max_claude_scrollback_bytes : ℕ
max_claude_scrollback_bytes = 268_435_456

pub record Restoring : Type 0 where
  pub scrollback : Option Bytes
  pub saw_state : Bool
  pub saw_shared : Bool
  pub seen : List EntryPath
  pub state : Tree
  pub shared : Tree

abbrev pub nothing_restored : Restoring
nothing_restored = record {
  scrollback = none;
  saw_state = false;
  saw_shared = false;
  seen = [];
  state = [];
  shared = [];
}

-- The part below the outermost component, and that component.
unfoldable pub below_root : EntryPath → EntryPath × Text
below_root [] = ([], [])
below_root (c ∷ []) = ([], c)
below_root (c ∷ d ∷ p) = let (rel, root) = below_root (d ∷ p) in (c ∷ rel, root)

unfoldable pub take_scrollback : Header → Restoring → Result Error Restoring
take_scrollback header r = elim r.scrollback [
  | some old ↦ err (failed 56)
  | none ↦
      if not (is_regular header.type_flag)
      then err (failed 57)
      else if ltb max_claude_scrollback_bytes (length header.contents)
      then err (failed 58)
      else ok record r { scrollback = some header.contents }
]

unfoldable pub take_entry : Header → EntryPath → Restoring → Result Error Restoring
take_entry header clean r =
    let (rel, root) = below_root clean in
    if text_eq root (codes "state")
    then and_then (extract_claude_state_entry header rel r.state)
        (λ tree. ok record r { saw_state = true; state = tree })
    else if text_eq root (codes "shared")
    then and_then (extract_claude_state_entry header rel r.shared)
        (λ tree. ok record r { saw_shared = true; shared = tree })
    else err (failed 59)

unfoldable pub restore_entry : Header → Restoring → Result Error Restoring
restore_entry header r =
    if ltb max_claude_archive_entries (suc (length r.seen))
    then err (failed 60)
    else if ltb max_claude_archive_path_bytes (length header.name)
        || ltb max_claude_archive_path_bytes (length header.link_name)
    then err (failed 61)
    else and_then (clean_claude_archive_name header.name) λ clean.
      if any (path_eq clean) r.seen
      then err (failed 62)
      else let r = record r { seen = clean ∷ r.seen } in
        if path_eq clean (codes "scrollback" ∷ [])
        then take_scrollback header r
        else take_entry header clean r

unfoldable pub restore_entries : List Header → Restoring → Result Error Restoring
restore_entries [] r = ok r
restore_entries (header ∷ headers) r = and_then (restore_entry header r) (restore_entries headers)

abbrev is_root_directory : Tree → Bool
is_root_directory tree = elim (lstat [] tree) [
  | none ↦ false
  | some node ↦ elim node [ directory ↦ true | regular contents ↦ false | symlink target ↦ false ]
]

-- The checks between the last entry and the installation. `validate` is the workload's own check.
unfoldable pub checked :
    (mounts_shared : Bool)
    → (Tree → Result Error Unit)
    → Restoring
    → Result Error (Bytes × Restoring)
checked mounts_shared validate r = elim r.scrollback [
  | none ↦ err (failed 63)
  | some scrollback ↦
      if not r.saw_state
      then err (failed 64)
      else if not (is_root_directory r.state)
      then err (failed 65)
      else if r.saw_shared && not mounts_shared
      then err (failed 66)
      else if r.saw_shared && not (is_root_directory r.shared)
      then err (failed 67)
      else and_then (validate r.state) λ valid. ok (scrollback, r)
]

-- A read error of the archive, unless it is `intact`, comes after its headers.
unfoldable pub restore_state_archive :
    (intact mounts_shared : Bool)
    → (Tree → Result Error Unit)
    → List Header
    → Result Error (Bytes × Restoring)
restore_state_archive intact mounts_shared validate headers =
    and_then (restore_entries headers nothing_restored)
      λ r. if intact then checked mounts_shared validate r else err (failed 68)

unfoldable pub require_directory : Text → Tree → Result Error Unit
require_directory name tree = elim (lstat (name ∷ []) tree) [
  | none ↦ err (failed 69)
  | some node ↦ elim node [
    | directory ↦ ok tt
    | regular contents ↦ err (failed 70)
    | symlink target ↦ err (failed 70)
  ]
]

-- `load` reads the runtime state.
unfoldable pub validate_restored_agent_state :
    (Bytes → Result Error Unit) → Tree → Result Error Unit
validate_restored_agent_state load tree =
    if not (is_root_directory tree)
    then err (failed 71)
    else and_then (require_directory (codes "workspace") tree) λ workspace.
      and_then (require_directory (codes "home") tree) λ home.
        elim (lstat (codes ".session-platform-claude.json" ∷ []) tree) [
          | none ↦ err (failed 72)
          | some node ↦ elim node [
            | directory ↦ err (failed 73)
            | regular contents ↦ load contents
            | symlink target ↦ err (failed 73)
          ]
        ]
