-- ===== src/Agent/Archive/Contained.antt =====
-- data-plane/cmd/agent/state_archive.go: no path through a restored tree leaves it.
use session_platform.Prelude.{
  ◌≤◌, ◌≡◌, refl, sym, subst, Bool, true, false, some, List, [], ◌∷◌, ◌++◌, Text, length, All,
  arith, Result, ok,
}
use session_platform.Prelude.Yields.{Yields, Yields-and_then, Yields-err, Yields-if}
use session_platform.Session.Errors.{Error, failed}
use session_platform.Agent.Bytes.{Bytes}
use session_platform.Agent.Archive.{EntryPath, is_up, is_blank, is_abs, is_chained, split_path}
use session_platform.Agent.Archive.Resolve.{
  IsName, climbs, unchained_behind, is_chained-append, climbs-append, IsSafeLink,
  validate_claude_symlink_sound,
}
use session_platform.Agent.Archive.Extract.{
  directory, symlink, Tree, lstat, Header, Restoring, nothing_restored, restore_entries, checked,
  restore_state_archive,
}
use session_platform.Agent.Archive.Sound.{IsSound}
use session_platform.Agent.Archive.Restored.{AreSound, nothing-IsSound, restore_entries-AreSound}

-- How the kernel follows a path in a tree: where it is, and what is left of the path.
pub data Walk (tree : Tree) (p : EntryPath) (cs : List Text) : EntryPath → List Text → Type 0 where
  start : Walk tree p cs p cs
  stay :
      {q : EntryPath} {c : Text} {rest : List Text}
      → Walk tree p cs q (c ∷ rest)
      → is_blank c ≡ true
      → Walk tree p cs q rest
  rise :
      {q : EntryPath} {c d : Text} {rest : List Text}
      → Walk tree p cs (d ∷ q) (c ∷ rest)
      → is_blank c ≡ false
      → is_up c ≡ true
      → Walk tree p cs q rest
  enter :
      {q : EntryPath} {c : Text} {rest : List Text}
      → Walk tree p cs q (c ∷ rest)
      → IsName c
      → lstat (c ∷ q) tree ≡ some directory
      → Walk tree p cs (c ∷ q) rest
  follow :
      {q : EntryPath} {c target : Text} {rest : List Text}
      → Walk tree p cs q (c ∷ rest)
      → IsName c
      → lstat (c ∷ q) tree ≡ some (symlink target)
      → Walk tree p cs q (split_path target ++ rest)

-- The next component leads out: above the root, or through a link to an absolute path.
pub data LeadsOut (tree : Tree) : EntryPath → List Text → Type 0 where
  above :
      {c : Text} {rest : List Text}
      → is_blank c ≡ false
      → is_up c ≡ true
      → LeadsOut tree [] (c ∷ rest)
  beyond :
      {q : EntryPath} {c target : Text} {rest : List Text}
      → lstat (c ∷ q) tree ≡ some (symlink target)
      → is_abs target ≡ true
      → LeadsOut tree q (c ∷ rest)

-- A `..` comes before all names, and there are not more of them than directories to leave.
record Inside (q : EntryPath) (rest : List Text) : Type 0 where
  unchained : is_chained false rest ≡ false
  shallow : climbs rest ≤ length q

names-unchained : (cs : List Text) → All IsName cs → is_chained true cs ≡ false
unfolding is_chained
names-unchained [] named = refl
names-unchained (c ∷ cs) named = ground (arith, named.0, names-unchained cs named.1)

module _ (tree : Tree) (sound : IsSound tree) where
  safe_link :
      (c target : Text) (q : EntryPath)
      → lstat (c ∷ q) tree ≡ some (symlink target)
      → IsSafeLink q target
  safe_link c target q h =
      validate_claude_symlink_sound (c ∷ q) target ((sound.names (c ∷ q) (symlink target) h).1)
        (sound.links (c ∷ q) target h)

  named_next :
      (c : Text) (rest : List Text)
      → IsName c
      → is_chained false (c ∷ rest) ≡ false
      → is_chained true rest ≡ false
  unfolding is_chained
  named_next c rest name h = ground (arith, h, name)

  Walk-Inside :
      {cs rest : List Text} {q : EntryPath} → All IsName cs → Walk tree [] cs q rest → Inside q rest
  unfolding is_chained climbs
  Walk-Inside {cs} named start = record {
    unchained = (unchained_behind cs (names-unchained cs named)).0;
    shallow = ground (arith, (unchained_behind cs (names-unchained cs named)).1);
  }
  Walk-Inside named (stay w blank) =
      let inside = Walk-Inside named w in
      record {
        unchained = ground (arith, inside.unchained, blank);
        shallow = ground (arith, inside.shallow, blank);
      }
  Walk-Inside named (rise w solid up) =
      let inside = Walk-Inside named w in
      record {
        unchained = ground (arith, inside.unchained, solid, up);
        shallow = ground (arith, inside.shallow, solid, up);
      }
  Walk-Inside named (enter {q} {c} {rest} w name there) =
      let behind = unchained_behind rest (named_next c rest name (Walk-Inside named w).unchained) in
      record { unchained = behind.0; shallow = ground (arith, behind.1) }
  Walk-Inside named (follow {q} {c} {target} {rest} w name there) =
      let next = named_next c rest name (Walk-Inside named w).unchained in
      let safe = safe_link c target q there in
      record {
        unchained = is_chained-append false (split_path target) rest safe.unchained next;
        shallow =
            subst (λ n. n ≤ length q)
              (sym (climbs-append (split_path target) rest (unchained_behind rest next).1))
              safe.inside;
      }

  stays_in :
      {cs rest : List Text} {q : EntryPath}
      → All IsName cs
      → Walk tree [] cs q rest
      → ¬ LeadsOut tree q rest
  unfolding is_chained climbs
  stays_in named w (above solid up) =
      absurd (ground (arith, (Walk-Inside named w).shallow, solid, up))
  stays_in named w (beyond {q} {c} {target} there out) =
      absurd (ground (arith, (safe_link c target q there).relative, out))

abbrev pub tree_of : (shared : Bool) → Restoring → Tree
tree_of true r = r.shared
tree_of false r = r.state

-- Whatever the archive: in the state tree and the shared tree of a restore that passed its checks, no path of
-- names from the root leads out of the tree, whichever links it goes through.
pub restore_state_archive-Contained :
    (intact mounts_shared : Bool) (validate : Tree → Result Error Unit) (headers : List Header)
    {scrollback : Bytes} {r : Restoring} (shared : Bool) {cs rest : List Text} {q : EntryPath}
    → restore_state_archive intact mounts_shared validate headers ≡ ok (scrollback, r)
    → All IsName cs
    → Walk (tree_of shared r) [] cs q rest
    → ¬ LeadsOut (tree_of shared r) q rest
unfolding restore_state_archive checked
restore_state_archive-Contained intact mounts_shared validate headers {scrollback} {r} shared h
      named w =
    stays_in (tree_of shared r) (sound_tree shared (restored.at (scrollback, r) h)) named w
  where
    sound_tree : (shared : Bool) {r : Restoring} → AreSound r → IsSound (tree_of shared r)
    sound_tree true sound = sound.shared
    sound_tree false sound = sound.state

    passed :
        (r : Restoring) → AreSound r → Yields (λ x. AreSound x.1) (checked mounts_shared validate r)
    passed r sound = record { at = λ x h. subst AreSound (ground (arith, h)) sound }

    restored :
        Yields (λ x. AreSound x.1) (restore_state_archive intact mounts_shared validate headers)
    restored = Yields-and_then (restore_entries headers nothing_restored) λ r h.
        Yields-if intact
          (passed r (
            (restore_entries-AreSound headers nothing_restored
                (record { state = nothing-IsSound; shared = nothing-IsSound })).at
              r h))
          (Yields-err (failed 68))
