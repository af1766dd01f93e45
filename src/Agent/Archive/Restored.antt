-- ===== src/Agent/Archive/Restored.antt =====
-- data-plane/cmd/agent/state_archive.go: both trees of a restore are sound after every entry.
use session_platform.Prelude.{subst, List, [], ◌∷◌, Text, codes, text_eq, any, All, arith}
use session_platform.Prelude.Yields.{Yields, Yields-and_then, Yields-ok, Yields-err, Yields-if}
use session_platform.Session.Errors.{failed}
use session_platform.Agent.Archive.{EntryPath, split_path, clean_claude_archive_name}
use session_platform.Agent.Archive.Resolve.{IsName, clean_onto-names}
use session_platform.Agent.Archive.Extract.{
  lstat, path_eq, extract_claude_state_entry, Header, Restoring, below_root, take_scrollback,
  take_entry, restore_entry, restore_entries,
}
use session_platform.Agent.Archive.Sound.{IsSound, extract-IsSound}

clean_name_sound : (name : Text) → Yields (All IsName) (clean_claude_archive_name name)
unfolding clean_claude_archive_name
clean_name_sound name = record {
  at = λ p h.
      subst (All IsName) (ground (arith, h))
        (clean_onto-names (split_path name) [] tt (ground (arith, h)));
}

below_root-names : (p : EntryPath) → All IsName p → All IsName ((below_root p).0)
unfolding below_root
below_root-names [] named = tt
below_root-names (c ∷ []) named = tt
below_root-names (c ∷ d ∷ p) named = (named.0, below_root-names (d ∷ p) named.1)

pub record AreSound (r : Restoring) : Type 0 where
  pub state : IsSound r.state
  pub shared : IsSound r.shared

pub nothing-IsSound : IsSound []
unfolding lstat
nothing-IsSound = record {
  root = λ node h. absurd (ground (arith, h));
  parents = λ c p node h. absurd (ground (arith, h));
  names = λ p node h. absurd (ground (arith, h));
  links = λ p target h. absurd (ground (arith, h));
}

take_scrollback-AreSound :
    (header : Header) (r : Restoring) → AreSound r → Yields AreSound (take_scrollback header r)
unfolding take_scrollback
take_scrollback-AreSound header r sound = record {
  at = λ r' h. record {
    state = subst IsSound (ground (arith, h)) sound.state;
    shared = subst IsSound (ground (arith, h)) sound.shared;
  };
}

take_entry-AreSound :
    (header : Header) (clean : EntryPath) (r : Restoring)
    → AreSound r
    → All IsName clean
    → Yields AreSound (take_entry header clean r)
unfolding take_entry
take_entry-AreSound header clean r sound named =
    let rel = (below_root clean).0 in
    Yields-if (text_eq (below_root clean).1 (codes "state"))
      (Yields-and_then (extract_claude_state_entry header rel r.state) λ tree h.
        Yields-ok _ (record {
          state =
              (extract-IsSound header rel r.state sound.state (below_root-names clean named)).at
                tree h;
          shared = sound.shared;
        }))
      (Yields-if (text_eq (below_root clean).1 (codes "shared"))
        (Yields-and_then (extract_claude_state_entry header rel r.shared) λ tree h.
          Yields-ok _ (record {
            state = sound.state;
            shared =
                (extract-IsSound header rel r.shared sound.shared (below_root-names clean named)).at
                  tree h;
          }))
        (Yields-err (failed 59)))

seen-AreSound :
    (clean : EntryPath) (r : Restoring) → AreSound r → AreSound (record r { seen = clean ∷ r.seen })
seen-AreSound clean r sound = record { state = sound.state; shared = sound.shared }

restore_entry-AreSound :
    (header : Header) (r : Restoring) → AreSound r → Yields AreSound (restore_entry header r)
unfolding restore_entry
restore_entry-AreSound header r sound = Yields-if _ (Yields-err (failed 60)) (
    Yields-if _ (Yields-err (failed 61)) (
      Yields-and_then (clean_claude_archive_name header.name) λ clean h.
        Yields-if (any (path_eq clean) r.seen) (Yields-err (failed 62)) (
          Yields-if (path_eq clean (codes "scrollback" ∷ []))
            (take_scrollback-AreSound header (record r { seen = clean ∷ r.seen })
              (seen-AreSound clean r sound))
            (take_entry-AreSound header clean (record r { seen = clean ∷ r.seen })
              (seen-AreSound clean r sound) ((clean_name_sound header.name).at clean h)))))

pub restore_entries-AreSound :
    (headers : List Header) (r : Restoring)
    → AreSound r
    → Yields AreSound (restore_entries headers r)
unfolding restore_entries
restore_entries-AreSound [] r sound = Yields-ok r sound
restore_entries-AreSound (header ∷ headers) r sound =
    Yields-and_then (restore_entry header r) λ next h.
      restore_entries-AreSound headers next ((restore_entry-AreSound header r sound).at next h)
