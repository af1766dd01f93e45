-- ===== src/Service/Refs.antt =====
-- control-plane/internal/service/manager.go: the pods that are reclaimed with a session.
use session_platform.Prelude.{
  ◌≡◌, refl, Bool, true, false, not, ◌&&◌, ◌||◌, List, [], ◌∷◌, ◌++◌, Text, text_eq, is_empty,
  text_eq_sym, text_eq_sound, subst, arith,
}
use session_platform.Session.Record.{Session}
use session_platform.Pods.{PodRef, named}
use session_platform.Service.Helpers.{names_pod, session_pod_refs, session_reclaim_refs}

-- No pod is named twice.
abbrev pub distinct : List PodRef → Bool
distinct [] = true
distinct (r ∷ rs) = let rest = distinct rs in not (names_pod r.name rs) && rest

names_pod-snoc :
    (name extra : Text) (refs : List PodRef)
    → names_pod name (refs ++ named extra ∷ []) ≡ (names_pod name refs || text_eq extra name)
names_pod-snoc name extra [] = ground arith
names_pod-snoc name extra (r ∷ rs) = ground (arith, names_pod-snoc name extra rs)

distinct-snoc :
    (extra : Text) (refs : List PodRef)
    → names_pod extra refs ≡ false
    → distinct refs ≡ true
    → distinct (refs ++ named extra ∷ []) ≡ true
distinct-snoc extra [] absent h = refl
distinct-snoc extra (r ∷ rs) absent h = ground (
  arith,
  absent,
  h,
  distinct-snoc extra rs,
  names_pod-snoc r.name extra rs,
  text_eq_sym r.name extra,
)

names_pod-same :
    (extra name : Text) (refs : List PodRef)
    → text_eq extra name ≡ true
    → names_pod extra refs ≡ names_pod name refs
names_pod-same extra name refs h =
    subst (λ x. names_pod extra refs ≡ names_pod x refs) (text_eq_sound extra name h) refl

-- The pods to reclaim are those of the record and the source pod of its interrupted freeze, if that has a name, and
-- none of them twice when the record names none twice.
pub session_reclaim_refs-names :
    (s : Session) (extra name : Text)
    → (names_pod name (session_reclaim_refs s extra)
        ≡ (names_pod name (session_pod_refs s) || (not (is_empty extra) && text_eq extra name)))
      × (distinct (session_pod_refs s) ≡ true → distinct (session_reclaim_refs s extra) ≡ true)
unfolding session_reclaim_refs
session_reclaim_refs-names s extra name = ground (
  arith,
  names_pod-snoc name extra (session_pod_refs s),
  distinct-snoc extra (session_pod_refs s),
  names_pod-same extra name (session_pod_refs s),
)
