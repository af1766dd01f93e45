-- ===== src/RepoAccess/History/Consistent.antt =====
-- control-plane/internal/repoaccess/store.go: what the tables satisfy after any calls.
use session_platform.Prelude.{
  ◌≡◌, refl, subst, Bool, true, false, any, none, some, List, [], ◌∷◌, Text, text_eq, All, arith,
  if◌then◌else◌,
}
use session_platform.RepoAccess.Names.{IsCanonical}
use session_platform.RepoAccess.Store.{Entry, Request, Database, find_entry, request_by_id, deleted}
use session_platform.RepoAccess.History.{Operation, Call, after}
use session_platform.RepoAccess.History.Performed.{perform-Changes}
use session_platform.RepoAccess.History.Changes.{
  IsFiled, conflicts, Changes, unchanged, listed, unlisted, filed, cleared, granted, with_entry,
  without_entries, without_requests,
}

pub deleted-All {ℓ} :
    {A : Type ℓ} (P : A → Type 0) (hit : A → Bool) (xs : List A) → All P xs → All P (deleted hit xs)
unfolding deleted
deleted-All P hit [] h = tt
deleted-All P hit (x ∷ xs) h = by_test (hit x) (deleted-All P hit xs h.1)
  where
    by_test :
        (b : Bool)
        → All P (deleted hit xs)
        → All P (if b then deleted hit xs else x ∷ deleted hit xs)
    by_test true rest = rest
    by_test false rest = (h.0, rest)

pub UniqueEntries : List Entry → Type 0
UniqueEntries [] = Unit
UniqueEntries (e ∷ es) = (find_entry e.repo es ≡ none) × UniqueEntries es

pub UniqueRequests : List Request → Type 0
UniqueRequests [] = Unit
UniqueRequests (r ∷ rs) = (any (conflicts r) rs ≡ false) × UniqueRequests rs

-- The keys of both tables are keys, and every row is well formed.
pub record IsConsistent (db : Database) : Type 0 where
  pub entries : UniqueEntries db.allowlist
  pub canonical : All (λ (e : Entry). IsCanonical e.repo) db.allowlist
  pub requests : UniqueRequests db.requests
  pub filed : All IsFiled db.requests

deleted-find_entry :
    (repo : Text) (hit : Entry → Bool) (es : List Entry)
    → find_entry repo es ≡ none
    → find_entry repo (deleted hit es) ≡ none
unfolding find_entry deleted
deleted-find_entry repo hit [] h = refl
deleted-find_entry repo hit (e ∷ es) h = ground (arith, h, deleted-find_entry repo hit es)

deleted-UniqueEntries :
    (hit : Entry → Bool) (es : List Entry) → UniqueEntries es → UniqueEntries (deleted hit es)
unfolding deleted UniqueEntries
deleted-UniqueEntries hit [] h = tt
deleted-UniqueEntries hit (e ∷ es) h = by_test (hit e) (deleted-UniqueEntries hit es h.1)
  where
    by_test :
        (b : Bool)
        → UniqueEntries (deleted hit es)
        → UniqueEntries (if b then deleted hit es else e ∷ deleted hit es)
    by_test true rest = rest
    by_test false rest = (deleted-find_entry e.repo hit es h.0, rest)

deleted-any :
    (p hit : Request → Bool) (rs : List Request) → any p rs ≡ false → any p (deleted hit rs) ≡ false
unfolding deleted
deleted-any p hit [] h = refl
deleted-any p hit (r ∷ rs) h = ground (arith, h, deleted-any p hit rs)

deleted-UniqueRequests :
    (hit : Request → Bool) (rs : List Request) → UniqueRequests rs → UniqueRequests (deleted hit rs)
unfolding deleted UniqueRequests
deleted-UniqueRequests hit [] h = tt
deleted-UniqueRequests hit (r ∷ rs) h = by_test (hit r) (deleted-UniqueRequests hit rs h.1)
  where
    by_test :
        (b : Bool)
        → UniqueRequests (deleted hit rs)
        → UniqueRequests (if b then deleted hit rs else r ∷ deleted hit rs)
    by_test true rest = rest
    by_test false rest = (deleted-any (conflicts r) hit rs h.0, rest)

pub request_by_id-All :
    (P : Request → Type 0) (id : Text) (rs : List Request) {r : Request}
    → All P rs
    → request_by_id id rs ≡ some r
    → P r
unfolding request_by_id
request_by_id-All P id [] all h = absurd (ground (arith, h))
request_by_id-All P id (q ∷ rs) {r} all h =
    by_test (text_eq q.id id) h (request_by_id-All P id rs all.1)
  where
    by_test :
        (b : Bool)
        → (if b then some q else request_by_id id rs) ≡ some r
        → (request_by_id id rs ≡ some r → P r)
        → P r
    by_test true e later = subst P (ground (arith, e)) all.0
    by_test false e later = later e

module _ (db : Database) (h : IsConsistent db) where
  listed-IsConsistent :
      (e : Entry)
      → find_entry e.repo db.allowlist ≡ none
      → IsCanonical e.repo
      → IsConsistent (with_entry e db)
  unfolding UniqueEntries
  listed-IsConsistent e fresh canonical = record {
    entries = (fresh, h.entries);
    canonical = (canonical, h.canonical);
    requests = h.requests;
    filed = h.filed;
  }

  unlisted-IsConsistent : (hit : Entry → Bool) → IsConsistent (without_entries hit db)
  unlisted-IsConsistent hit = record {
    entries = deleted-UniqueEntries hit db.allowlist h.entries;
    canonical = deleted-All (λ (e : Entry). IsCanonical e.repo) hit db.allowlist h.canonical;
    requests = h.requests;
    filed = h.filed;
  }

  cleared-IsConsistent : (hit : Request → Bool) → IsConsistent (without_requests hit db)
  cleared-IsConsistent hit = record {
    entries = h.entries;
    canonical = h.canonical;
    requests = deleted-UniqueRequests hit db.requests h.requests;
    filed = deleted-All IsFiled hit db.requests h.filed;
  }

change-IsConsistent :
    (op : Operation) (db : Database) {after : Database}
    → IsConsistent db
    → Changes op db after
    → IsConsistent after
unfolding UniqueRequests
change-IsConsistent op db h unchanged = h
change-IsConsistent op db h (listed e fresh canonical adding) =
    listed-IsConsistent db h e fresh canonical
change-IsConsistent op db h (unlisted hit) = unlisted-IsConsistent db h hit
change-IsConsistent op db h (filed r fresh is_filed asking) = record {
  entries = h.entries;
  canonical = h.canonical;
  requests = (fresh, h.requests);
  filed = (is_filed, h.filed);
}
change-IsConsistent op db h (cleared hit) = cleared-IsConsistent db h hit
change-IsConsistent op db h (granted r e hit fresh waiting same_repo same_session approving) =
    let is_filed = request_by_id-All IsFiled r.id db.requests h.filed waiting in
    cleared-IsConsistent (with_entry e db)
      (listed-IsConsistent db h e fresh (subst IsCanonical same_repo is_filed.canonical)) hit

-- Whatever calls are made and whichever of their statements fail: a repository is listed at most once, as owner/name
-- in lower case, and no two requests share an identifier or are of one session for one repository; each is for a
-- repository in that form, names a session and has a reason of 1 to 500 characters.
pub after-IsConsistent : (calls : List Call) → IsConsistent (after calls)
unfolding after UniqueEntries UniqueRequests
after-IsConsistent [] = record { entries = tt; canonical = tt; requests = tt; filed = tt }
after-IsConsistent (call ∷ earlier) =
    change-IsConsistent call.operation (after earlier) (after-IsConsistent earlier)
      (perform-Changes call.fails call.operation (after earlier))
