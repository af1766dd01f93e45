-- ===== src/Agent/Archive/Tests.antt =====
-- Small archives, and an instance of the theorem.
use session_platform.Prelude.{
  ◌++◌, ◌≡◌, refl, true, false, some, List, [], ◌∷◌, Text, codes, text_eq, Result, ok, err,
}
use session_platform.Session.Errors.{Error, failed}
use session_platform.Agent.Archive.{
  validate_claude_symlink, clean_claude_archive_name, split_path, clean_onto, go_up, is_outside,
  is_chained,
}
use session_platform.Agent.Archive.Extract.{
  Tree, Header, TypeFlag, type_dir, type_reg, type_symlink, directory, symlink, lstat, path_eq,
  Restoring, restore_state_archive, restore_entries, restore_entry, take_entry, take_scrollback,
  checked, below_root, extract_claude_state_entry, place, make_directory, create_new,
  ensure_safe_claude_parents,
}
use session_platform.Agent.Archive.Contained.{
  Walk, start, follow, LeadsOut, restore_state_archive-Contained,
}

abbrev entry : Text → TypeFlag → Header
entry name flag = record { name = name; link_name = []; type_flag = flag; contents = [] }

abbrev link : Text → Text → Header
link name target = record {
  name = name;
  link_name = target;
  type_flag = type_symlink;
  contents = [];
}

abbrev anything : Tree → Result Error Unit
anything tree = ok tt

abbrev archive : List Header
archive =
    entry (codes "scrollback") type_reg
    ∷ entry (codes "state/") type_dir
    ∷ link (codes "state/a/tool") (codes "../b")
    ∷ []

abbrev unpacked : Restoring
unpacked = record {
  scrollback = some [];
  saw_state = true;
  saw_shared = false;
  seen =
      (codes "tool" ∷ codes "a" ∷ codes "state" ∷ [])
      ∷ (codes "state" ∷ [])
      ∷ (codes "scrollback" ∷ [])
      ∷ [];
  state =
      ((codes "tool" ∷ codes "a" ∷ []), symlink (codes "../b"))
      ∷ ((codes "a" ∷ []), directory)
      ∷ ([], directory)
      ∷ [];
  shared = [];
}

unpacks : restore_state_archive true false anything archive ≡ ok ([], unpacked)
unfolding restore_state_archive restore_entries restore_entry take_entry take_scrollback checked
    below_root extract_claude_state_entry place make_directory create_new ensure_safe_claude_parents
    lstat path_eq text_eq clean_claude_archive_name validate_claude_symlink split_path clean_onto
    go_up is_outside is_chained
unpacks = refl

-- One parent too many, and a parent behind a name.
refused :
    (validate_claude_symlink (codes "tool" ∷ codes "a" ∷ []) (codes "../../b") ≡ err (failed 44))
    × (validate_claude_symlink (codes "tool" ∷ []) (codes "a/../b") ≡ err (failed 43))
    × (clean_claude_archive_name (codes "state/../../x") ≡ err (failed 41))
unfolding validate_claude_symlink clean_claude_archive_name split_path clean_onto go_up is_outside
    is_chained text_eq
refused = (refl, refl, refl)

-- The link cannot be a directory for what follows.
through_link :
    restore_state_archive true false anything (
      entry (codes "state") type_dir
      ∷ link (codes "state/l") (codes "d")
      ∷ entry (codes "state/l/f") type_reg
      ∷ [])
    ≡ err (failed 50)
unfolding restore_state_archive restore_entries restore_entry take_entry take_scrollback checked
    below_root extract_claude_state_entry place make_directory create_new ensure_safe_claude_parents
    lstat path_eq text_eq clean_claude_archive_name validate_claude_symlink split_path clean_onto
    go_up is_outside is_chained
through_link = refl

abbrev to_tool : List Text
to_tool = codes "a" ∷ codes "tool" ∷ []

walked : Walk unpacked.state [] to_tool (codes "a" ∷ []) (split_path (codes "../b") ++ [])
unfolding lstat path_eq text_eq
walked = follow (Walk.enter start (refl, refl) refl) (refl, refl) refl

restore_state_archive-Contained_example :
    ¬ LeadsOut unpacked.state (codes "a" ∷ []) (split_path (codes "../b") ++ [])
unfolding text_eq
restore_state_archive-Contained_example =
    restore_state_archive-Contained true false anything archive false unpacks
      ((refl, refl), ((refl, refl), tt)) walked
