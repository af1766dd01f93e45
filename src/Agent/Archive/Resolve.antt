-- ===== src/Agent/Archive/Resolve.antt =====
-- data-plane/cmd/agent/state_archive.go: what the checks of links leave of the `..` in them.
use session_platform.Prelude.{
  ℕ, suc, ◌≤◌, ◌≡◌, refl, sym, subst, ◌⊎◌, inl, inr, Bool, true, false, List, [], ◌∷◌, ◌++◌, Text,
  codes, text_eq, length, All, arith, ok, if◌then◌else◌,
}
use session_platform.Agent.Archive.{
  EntryPath, is_up, is_blank, is_abs, go_up, clean_onto, is_outside, is_chained, split_path, parent,
  validate_claude_symlink,
}

-- How many parents are gone to before a name is reached.
unfoldable pub climbs : List Text → ℕ
climbs [] = 0
climbs (c ∷ cs) = if is_blank c then climbs cs else if is_up c then suc (climbs cs) else 0

abbrev pub IsName : Text → Type 0
IsName c = (is_blank c ≡ false) × (is_up c ≡ false)

pub unchained_behind :
    (cs : List Text) → is_chained true cs ≡ false → (is_chained false cs ≡ false) × (climbs cs ≡ 0)
unfolding is_chained climbs
unchained_behind [] h = (refl, refl)
unchained_behind (c ∷ cs) h = ground (arith, h, unchained_behind cs)

pub is_chained-append :
    (b : Bool) (cs ds : List Text)
    → is_chained b cs ≡ false
    → is_chained true ds ≡ false
    → is_chained b (cs ++ ds) ≡ false
unfolding is_chained
is_chained-append true [] ds h k = k
is_chained-append false [] ds h k = (unchained_behind ds k).0
is_chained-append b (c ∷ cs) ds h k =
    ground (arith, h, is_chained-append b cs ds, is_chained-append true cs ds, k)

pub climbs-append : (cs ds : List Text) → climbs ds ≡ 0 → climbs (cs ++ ds) ≡ climbs cs
unfolding climbs
climbs-append [] ds h = h
climbs-append (c ∷ cs) ds h = ground (arith, climbs-append cs ds h)

go_up-outside : (p : EntryPath) → is_outside p ≡ true → is_outside (go_up p) ≡ true
unfolding is_outside go_up text_eq
go_up-outside [] h = refl
go_up-outside (c ∷ []) h = ground (arith, h)
go_up-outside (c ∷ d ∷ p) h = ground (arith, h)

push-outside : (c : Text) (p : EntryPath) → is_outside p ≡ true → is_outside (c ∷ p) ≡ true
unfolding is_outside
push-outside c [] h = absurd (ground (arith, h))
push-outside c (d ∷ p) h = h

-- A `..` at the outer end is never taken away.
stays_outside :
    (cs : List Text) (p : EntryPath) → is_outside p ≡ true → is_outside (clean_onto cs p) ≡ true
unfolding clean_onto
stays_outside [] p h = h
stays_outside (c ∷ cs) p h = ground (
  arith,
  stays_outside cs p h,
  stays_outside cs (go_up p) (go_up-outside p h),
  stays_outside cs (c ∷ p) (push-outside c p h),
)

climbs_inside :
    (cs : List Text) (p : EntryPath)
    → All IsName p
    → is_outside (clean_onto cs p) ≡ false
    → climbs cs ≤ length p
unfolding clean_onto climbs go_up is_outside text_eq
climbs_inside [] p names h = omega arith
climbs_inside (c ∷ cs) [] names h =
    ground (arith, h, climbs_inside cs [] tt, stays_outside cs (codes ".." ∷ []) refl)
climbs_inside (c ∷ cs) (d ∷ q) names h =
    ground (arith, h, names.0, climbs_inside cs (d ∷ q) names, climbs_inside cs q names.1)

-- What an accepted link is like.
pub record IsSafeLink (p : EntryPath) (link : Text) : Type 0 where
  pub relative : is_abs link ≡ false
  pub unchained : is_chained false (split_path link) ≡ false
  pub inside : climbs (split_path link) ≤ length p

pub validate_claude_symlink_sound :
    (rel : EntryPath) (link : Text)
    → All IsName (parent rel)
    → validate_claude_symlink rel link ≡ ok tt
    → IsSafeLink (parent rel) link
unfolding validate_claude_symlink
validate_claude_symlink_sound rel link names h = record {
  relative = ground (arith, h);
  unchained = ground (arith, h);
  inside = climbs_inside (split_path link) (parent rel) names (ground (arith, h));
}

one_step :
    (c : Text) (p : EntryPath)
    → All IsName p
    → (is_outside (if is_blank c then p else if is_up c then go_up p else c ∷ p) ≡ true)
      ⊎ All IsName (if is_blank c then p else if is_up c then go_up p else c ∷ p)
unfolding go_up is_outside text_eq
one_step c p names = by_kind (is_blank c) (is_up c) refl refl
  where
    risen : (p : EntryPath) → All IsName p → (is_outside (go_up p) ≡ true) ⊎ All IsName (go_up p)
    risen [] names = inl refl
    risen (d ∷ q) names =
        inr (subst (λ b. All IsName (if b then codes ".." ∷ d ∷ q else q)) (sym names.0.1) names.1)

    by_kind :
        (blank up : Bool)
        → is_blank c ≡ blank
        → is_up c ≡ up
        → (is_outside (if blank then p else if up then go_up p else c ∷ p) ≡ true)
          ⊎ All IsName (if blank then p else if up then go_up p else c ∷ p)
    by_kind true up b u = inr names
    by_kind false true b u = risen p names
    by_kind false false b u = inr ((b, u), names)

pub clean_onto-names :
    (cs : List Text) (p : EntryPath)
    → All IsName p
    → is_outside (clean_onto cs p) ≡ false
    → All IsName (clean_onto cs p)
unfolding clean_onto
clean_onto-names [] p names h = names
clean_onto-names (c ∷ cs) p names h = elim (one_step c p names) [
  | inl out ↦ absurd (ground (arith, h, stays_outside cs _ out))
  | inr names ↦ clean_onto-names cs _ names h
]
