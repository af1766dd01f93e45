-- ===== src/Agent/Archive/Sound.antt =====
-- data-plane/cmd/agent/state_archive.go: what every tree is like that entries were extracted into.
use session_platform.Prelude.{
  ◌≡◌, refl, sym, ◌∙◌, subst, Bool, true, false, Option, none, some, [], ◌∷◌, Text, All, arith,
  text_eq_sound, text_eq_refl, ◌⊎◌, inl, inr, ok, err, if◌then◌else◌,
}
use session_platform.Prelude.Yields.{Yields, Yields-and_then, Yields-ok, Yields-err, Yields-if}
use session_platform.Session.Errors.{failed}
use session_platform.Agent.Archive.{EntryPath, is_up, is_outside, validate_claude_symlink}
use session_platform.Agent.Archive.Resolve.{IsName}
use session_platform.Agent.Archive.Extract.{
  Node, directory, regular, symlink, path_eq, Tree, lstat, make_directory,
  ensure_safe_claude_parents, create_new, Header, TypeFlag, type_dir, type_reg, type_symlink,
  other_type, place, extract_claude_state_entry,
}

pub path_eq_sound : (p q : EntryPath) → path_eq p q ≡ true → p ≡ q
unfolding path_eq
path_eq_sound [] [] h = refl
path_eq_sound [] (d ∷ q) h = cc
path_eq_sound (c ∷ p) [] h = cc
path_eq_sound (c ∷ p) (d ∷ q) h = grind (arith, h, text_eq_sound c d, path_eq_sound p q)

pub path_eq_refl : (p : EntryPath) → path_eq p p ≡ true
unfolding path_eq
path_eq_refl [] = refl
path_eq_refl (c ∷ p) = ground (arith, text_eq_refl c, path_eq_refl p)

-- Parents are directories, names are names, and links were checked.
pub record IsSound (tree : Tree) : Type 0 where
  pub root : (node : Node) → lstat [] tree ≡ some node → node ≡ directory
  pub parents :
      (c : Text) (p : EntryPath) (node : Node)
      → lstat (c ∷ p) tree ≡ some node
      → lstat p tree ≡ some directory
  pub names : (p : EntryPath) (node : Node) → lstat p tree ≡ some node → All IsName p
  pub links :
      (p : EntryPath) (target : Text)
      → lstat p tree ≡ some (symlink target)
      → validate_claude_symlink p target ≡ ok tt

-- What may be added at a path.
record MayHold (tree : Tree) (p : EntryPath) (node : Node) : Type 0 where
  fresh : lstat p tree ≡ none
  named : All IsName p
  at_root : p ≡ [] → node ≡ directory
  below : (c : Text) (q : EntryPath) → p ≡ c ∷ q → lstat q tree ≡ some directory
  link : (target : Text) → node ≡ symlink target → validate_claude_symlink p target ≡ ok tt

lstat-fresh :
    (tree : Tree) (p q : EntryPath) (node other : Node)
    → lstat p tree ≡ none
    → lstat q tree ≡ some other
    → lstat q ((p, node) ∷ tree) ≡ some other
unfolding lstat
lstat-fresh tree p q node other fresh there = grind (arith, fresh, there, path_eq_sound p q)

-- What is found in the larger tree is the new node or was there.
found :
    (tree : Tree) (p q : EntryPath) (node other : Node)
    → lstat q ((p, node) ∷ tree) ≡ some other
    → ((p ≡ q) × (node ≡ other)) ⊎ (lstat q tree ≡ some other)
unfolding lstat
found tree p q node other h = by_test (path_eq p q) refl h
  where
    by_test :
        (b : Bool)
        → path_eq p q ≡ b
        → (if b then some node else lstat q tree) ≡ some other
        → ((p ≡ q) × (node ≡ other)) ⊎ (lstat q tree ≡ some other)
    by_test true e k = inl (path_eq_sound p q e, ground (arith, k))
    by_test false e k = inr k

grown :
    (tree : Tree) (p : EntryPath) (node : Node)
    → IsSound tree
    → MayHold tree p node
    → IsSound ((p, node) ∷ tree)
grown tree p node sound may = record {
  root = λ other h. elim (found tree p [] node other h) [
    | inl e ↦ sym e.1 ∙ may.at_root e.0
    | inr old ↦ sound.root other old
  ];
  parents = λ c q other h.
      lstat-fresh tree p q node directory may.fresh (elim (found tree p (c ∷ q) node other h) [
        | inl e ↦ may.below c q e.0
        | inr old ↦ sound.parents c q other old
      ]);
  names = λ q other h. elim (found tree p q node other h) [
    | inl e ↦ subst (All IsName) e.0 may.named
    | inr old ↦ sound.names q other old
  ];
  links = λ q target h. elim (found tree p q node (symlink target) h) [
    | inl e ↦ subst (λ q. validate_claude_symlink q target ≡ ok tt) e.0 (may.link target e.1)
    | inr old ↦ sound.links q target old
  ];
}

-- Sound, with a directory at a path.
record Reached (p : EntryPath) (tree : Tree) : Type 0 where
  sound : IsSound tree
  there : lstat p tree ≡ some directory

BelowDirectory : EntryPath → Tree → Type 0
BelowDirectory [] tree = Unit
BelowDirectory (c ∷ p) tree = lstat p tree ≡ some directory

below-parent :
    (p : EntryPath) (tree : Tree)
    → BelowDirectory p tree
    → (c : Text) (q : EntryPath) → p ≡ c ∷ q
    → lstat q tree ≡ some directory
unfolding BelowDirectory
below-parent p tree h c q e = subst (λ p. BelowDirectory p tree) e h

make_directory-Reached :
    (p : EntryPath) (tree : Tree)
    → IsSound tree
    → All IsName p
    → BelowDirectory p tree
    → Yields (Reached p) (make_directory p tree)
unfolding make_directory lstat
make_directory-Reached p tree sound named below = by_node (lstat p tree) refl
  where
    by_node :
        (o : Option Node)
        → lstat p tree ≡ o
        → Yields (Reached p) (elim o [
          | none ↦ ok ((p, directory) ∷ tree)
          | some node ↦ elim node [
            | directory ↦ ok tree
            | regular contents ↦ err (failed 50)
            | symlink target ↦ err (failed 50)
          ]
        ])
    by_node none e = Yields-ok _ (record {
      sound = grown tree p directory sound (record {
        fresh = e;
        named = named;
        at_root = λ h. refl;
        below = below-parent p tree below;
        link = λ target h. absurd (ground (arith, h));
      });
      there = ground (arith, path_eq_refl p);
    })
    by_node (some directory) e = Yields-ok _ (record { sound = sound; there = e })
    by_node (some (regular contents)) e = Yields-err (failed 50)
    by_node (some (symlink target)) e = Yields-err (failed 50)

ensure-Reached :
    (p : EntryPath) (tree : Tree)
    → IsSound tree
    → All IsName p
    → Yields (Reached p) (ensure_safe_claude_parents p tree)
unfolding ensure_safe_claude_parents BelowDirectory
ensure-Reached [] tree sound named = make_directory-Reached [] tree sound named tt
ensure-Reached (c ∷ p) tree sound named =
    Yields-and_then (ensure_safe_claude_parents p tree) λ above h.
      let reached = (ensure-Reached p tree sound named.1).at above h in
      Yields-if (is_up c) (Yields-err (failed 51))
        (make_directory-Reached (c ∷ p) above reached.sound named reached.there)

create_new-IsSound :
    (p : EntryPath) (node : Node) (tree : Tree)
    → IsSound tree
    → All IsName p
    → BelowDirectory p tree
    → (p ≡ [] → node ≡ directory)
    → ((target : Text) → node ≡ symlink target → validate_claude_symlink p target ≡ ok tt)
    → Yields IsSound (create_new p node tree)
unfolding create_new
create_new-IsSound p node tree sound named below at_root link = by_node (lstat p tree) refl
  where
    by_node :
        (o : Option Node)
        → lstat p tree ≡ o
        → Yields IsSound (elim o [ none ↦ ok ((p, node) ∷ tree) | some other ↦ err (failed 52) ])
    by_node none e = Yields-ok _ (
        grown tree p node sound (record {
          fresh = e;
          named = named;
          at_root = at_root;
          below = below-parent p tree below;
          link = link;
        }))
    by_node (some other) e = Yields-err (failed 52)

place-IsSound :
    (header : Header) (c : Text) (p : EntryPath) (tree : Tree)
    → IsSound tree
    → All IsName (c ∷ p)
    → lstat p tree ≡ some directory
    → Yields IsSound (place header (c ∷ p) tree)
unfolding place BelowDirectory
place-IsSound header c p tree sound named below = by_flag header.type_flag
  where
    by_flag :
        (flag : TypeFlag) → Yields IsSound (place (record header { type_flag = flag }) (c ∷ p) tree)
    by_flag type_dir = record {
      at = λ t h. ((make_directory-Reached (c ∷ p) tree sound named below).at t h).sound;
    }
    by_flag type_reg =
        create_new-IsSound (c ∷ p) (regular header.contents) tree sound named below
          (λ e. absurd (ground (arith, e))) λ target e. absurd (ground (arith, e))
    by_flag type_symlink =
        Yields-and_then (validate_claude_symlink (c ∷ p) header.link_name) λ valid v.
          create_new-IsSound (c ∷ p) (symlink header.link_name) tree sound named below
            (λ e. absurd (ground (arith, e)))
            λ target e. subst (λ t. validate_claude_symlink (c ∷ p) t ≡ ok tt) (ground (arith, e)) v
    by_flag other_type = Yields-err (failed 53)

pub extract-IsSound :
    (header : Header) (rel : EntryPath) (tree : Tree)
    → IsSound tree
    → All IsName rel
    → Yields IsSound (extract_claude_state_entry header rel tree)
unfolding extract_claude_state_entry BelowDirectory place
extract-IsSound header [] tree sound named = by_flag header.type_flag
  where
    by_flag :
        (flag : TypeFlag)
        → Yields IsSound (extract_claude_state_entry (record header { type_flag = flag }) [] tree)
    by_flag type_dir = record {
      at = λ t h. ((make_directory-Reached [] tree sound named tt).at t h).sound;
    }
    by_flag type_reg = Yields-err (failed 54)
    by_flag type_symlink = Yields-err (failed 54)
    by_flag other_type = Yields-err (failed 54)
extract-IsSound header (c ∷ p) tree sound named =
    Yields-if (is_outside (c ∷ p)) (Yields-err (failed 55)) (
      Yields-and_then (ensure_safe_claude_parents p tree) λ above h.
        let reached = (ensure-Reached p tree sound named.1).at above h in
        place-IsSound header c p above reached.sound named reached.there)
