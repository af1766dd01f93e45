-- ===== src/RepoAccess/History/Changes.antt =====
-- control-plane/internal/repoaccess/store.go: what one call can do to the tables.
use session_platform.Prelude.{
  ◌≤◌, ◌≡◌, Bool, false, ◌||◌, any, length, none, some, ◌∷◌, Text, text_eq, is_empty, ok,
}
use session_platform.Session.Models.{trim_space}
use session_platform.RepoAccess.Names.{normalize_repo, IsCanonical}
use session_platform.RepoAccess.Store.{
  Entry, Request, Database, find_entry, request_by_id, is_key, deleted, max_reason_runes,
}
use session_platform.RepoAccess.History.{Operation, adding, requesting, approving}

unfoldable pub IsAdding : Text → Operation → Type 0
IsAdding repo (adding now raw) = normalize_repo raw ≡ ok repo
IsAdding repo _ = ⊥

unfoldable pub IsAsking : Request → Operation → Type 0
IsAsking r (requesting now id raw session_id reason) =
    (normalize_repo raw ≡ ok r.repo) × (session_id ≡ r.session_id) × (id ≡ r.id)
IsAsking r _ = ⊥

unfoldable pub IsApproving : Text → Operation → Type 0
IsApproving id (approving now other) = other ≡ id
IsApproving id _ = ⊥

pub record IsFiled (r : Request) : Type 0 where
  pub canonical : IsCanonical r.repo
  pub reasoned : is_empty r.reason ≡ false
  pub short : length r.reason ≤ max_reason_runes
  pub asked : is_empty (trim_space r.session_id) ≡ false

abbrev pub conflicts : Request → Request → Bool
conflicts r q = text_eq q.id r.id || is_key r.repo r.session_id q

abbrev pub with_entry : Entry → Database → Database
with_entry e db = record db { allowlist = e ∷ db.allowlist }

abbrev pub without_entries : (Entry → Bool) → Database → Database
without_entries hit db = record db { allowlist = deleted hit db.allowlist }

abbrev pub with_request : Request → Database → Database
with_request r db = record db { requests = r ∷ db.requests }

abbrev pub without_requests : (Request → Bool) → Database → Database
without_requests hit db = record db { requests = deleted hit db.requests }

pub data Changes (op : Operation) (db : Database) : Database → Type 0 where
  unchanged : Changes op db db
  listed :
      (e : Entry)
      → find_entry e.repo db.allowlist ≡ none
      → IsCanonical e.repo
      → IsAdding e.repo op
      → Changes op db (with_entry e db)
  unlisted : (hit : Entry → Bool) → Changes op db (without_entries hit db)
  filed :
      (r : Request)
      → any (conflicts r) db.requests ≡ false
      → IsFiled r
      → IsAsking r op
      → Changes op db (with_request r db)
  cleared : (hit : Request → Bool) → Changes op db (without_requests hit db)
  granted :
      (r : Request) (e : Entry) (hit : Request → Bool)
      → find_entry e.repo db.allowlist ≡ none
      → request_by_id r.id db.requests ≡ some r
      → r.repo ≡ e.repo
      → r.session_id ≡ e.request_session_id
      → IsApproving r.id op
      → Changes op db (without_requests hit (with_entry e db))
