-- ===== src/RepoAccess/Store.antt =====
-- control-plane/internal/repoaccess/store.go: the operations on the two tables. A table is the list of its rows.
-- A statement is what its SQL says; `fails` tells which statements the database refuses, and what a transaction
-- did before that is undone. Times are the texts that are stored.
use session_platform.Prelude.{
  ℕ, Bool, true, false, ◌&&◌, ◌||◌, ltb, leb, length, any, Option, none, some, List, [], ◌∷◌, map,
  Text, text_eq, is_empty, Result, ok, err, and_then, if◌then◌else◌,
}
use session_platform.Session.Errors.{Error, sentinel, not_found, failed}
use session_platform.Session.Models.{trim_space}
use session_platform.RepoAccess.Names.{normalize_repo}

pub data Source : Type 0 where
  manual : Source
  by_request : Source

pub record Entry : Type 0 where
  pub repo : Text
  pub source : Source
  pub request_session_id : Text
  pub added_at : Text

pub record Request : Type 0 where
  pub id : Text
  pub repo : Text
  pub session_id : Text
  pub reason : Text
  pub requested_at : Text

pub record Database : Type 0 where
  pub allowlist : List Entry
  pub requests : List Request

-- An entry, whether it is new, and the tables after it.
pub record Added : Type 0 where
  pub entry : Entry
  pub created : Bool
  pub db : Database

-- `draw_id` stands for the random bytes of a new identifier.
pub data Statement : Type 0 where
  begin select_allowed insert_allowed delete_allowed select_request draw_id insert_request
        delete_requests list_rows commit :
      Statement

abbrev pub max_reason_runes : ℕ
max_reason_runes = 500

unfoldable pub find_entry : Text → List Entry → Option Entry
find_entry repo [] = none
find_entry repo (e ∷ es) = if text_eq e.repo repo then some e else find_entry repo es

unfoldable pub request_by_id : Text → List Request → Option Request
request_by_id id [] = none
request_by_id id (r ∷ rs) = if text_eq r.id id then some r else request_by_id id rs

abbrev pub is_key : Text → Text → Request → Bool
is_key repo session_id r = text_eq r.repo repo && text_eq r.session_id session_id

unfoldable pub request_by_key : Text → Text → List Request → Option Request
request_by_key repo session_id [] = none
request_by_key repo session_id (r ∷ rs) =
    if is_key repo session_id r then some r else request_by_key repo session_id rs

-- `DELETE … WHERE`.
unfoldable pub deleted {ℓ} : {A : Type ℓ} → (A → Bool) → List A → List A
deleted hit [] = []
deleted hit (x ∷ xs) = let rest = deleted hit xs in if hit x then rest else x ∷ rest

unfoldable pub text_leb : Text → Text → Bool
text_leb [] t = true
text_leb (c ∷ s) [] = false
text_leb (c ∷ s) (d ∷ t) = ltb c d || (leb c d && text_leb s t)

-- `ORDER BY`, by a test whether a row may stand before another.
unfoldable pub ordered_insert {ℓ} : {A : Type ℓ} → (A → A → Bool) → A → List A → List A
ordered_insert before x [] = x ∷ []
ordered_insert before x (y ∷ ys) =
    let rest = ordered_insert before x ys in if before x y then x ∷ y ∷ ys else y ∷ rest

unfoldable pub order_by {ℓ} : {A : Type ℓ} → (A → A → Bool) → List A → List A
order_by before [] = []
order_by before (x ∷ xs) = ordered_insert before x (order_by before xs)

abbrev entry_before : Entry → Entry → Bool
entry_before a b =
    if text_eq a.added_at b.added_at then text_leb a.repo b.repo else text_leb b.added_at a.added_at

abbrev request_before : Request → Request → Bool
request_before a b =
    if text_eq a.requested_at b.requested_at
    then text_leb a.id b.id
    else text_leb a.requested_at b.requested_at

pub data Answer : Type 0 where
  already_allowed : (repo session_id : Text) → Answer
  waiting : Request → Answer

module _ (fails : Statement → Option Error) where
  abbrev pub statement : {A : Type 0} → Statement → Result Error A → Result Error A
  statement s next = elim (fails s) [ none ↦ next | some e ↦ err e ]

  unfoldable pub list : Database → Result Error (List Entry)
  list db = statement list_rows (ok (order_by entry_before db.allowlist))

  unfoldable pub allowed : Text → Database → Result Error Bool
  allowed raw db = and_then (normalize_repo raw) λ repo.
      statement select_allowed
        (elim (find_entry repo db.allowlist) [ none ↦ ok false | some e ↦ ok true ])

  unfoldable pub add_tx : Entry → Database → Result Error Added
  add_tx e db = statement select_allowed (elim (find_entry e.repo db.allowlist) [
    | some old ↦ ok (record { entry = old; created = false; db = db })
    | none ↦
        statement insert_allowed (
          ok
            (record { entry = e; created = true; db = record db { allowlist = e ∷ db.allowlist } }))
  ])

  abbrev pub committed : {A : Type 0} → A → Result Error A
  committed a = statement commit (ok a)

  unfoldable pub add : (now raw : Text) → Database → Result Error Added
  add now raw db = and_then (normalize_repo raw) λ repo. statement begin (
      and_then
        (add_tx (record { repo = repo; source = manual; request_session_id = []; added_at = now })
          db)
        λ done. committed done)

  unfoldable pub remove : Text → Database → Result Error (Bool × Database)
  remove raw db = and_then (normalize_repo raw) λ repo. statement delete_allowed (
      ok (
        any (λ (e : Entry). text_eq e.repo repo) db.allowlist,
        record db { allowlist = deleted (λ (e : Entry). text_eq e.repo repo) db.allowlist },
      ))

  -- Each request with whether its repository is on the list already.
  unfoldable pub pending : Database → Result Error (List (Request × Bool))
  pending db = statement list_rows (
      ok (
        map (λ (r : Request). (r, any (λ (e : Entry). text_eq e.repo r.repo) db.allowlist))
          (order_by request_before db.requests)))

  -- `id` is the new random identifier; a row with it or for the same repository and session is a conflict.
  unfoldable pub insert : Request → Database → Result Error Database
  insert r db =
      if any (λ (q : Request). text_eq q.id r.id || is_key r.repo r.session_id q) db.requests
      then err (failed 81)
      else ok record db { requests = r ∷ db.requests }

  unfoldable pub file_request : Request → Database → Result Error (Answer × Database)
  file_request r db =
      statement select_request (elim (request_by_key r.repo r.session_id db.requests) [
        | some old ↦ committed (waiting old, db)
        | none ↦
            statement draw_id
              (statement insert_request (and_then (insert r db) λ db. committed (waiting r, db)))
      ])

  abbrev pub new_request : (now id repo session_id reason : Text) → Request
  new_request now id repo session_id reason = record {
    id = id;
    repo = repo;
    session_id = session_id;
    reason = reason;
    requested_at = now;
  }

  unfoldable pub request :
      (now id raw session_id reason : Text) → Database → Result Error (Answer × Database)
  request now id raw session_id reason db = and_then (normalize_repo raw) λ repo.
      let trimmed = trim_space reason in
      if is_empty trimmed || ltb max_reason_runes (length trimmed)
      then err (failed 82)
      else if is_empty (trim_space session_id)
      then err (failed 83)
      else statement begin (
          statement select_allowed (elim (find_entry repo db.allowlist) [
            | some e ↦ committed (already_allowed repo session_id, db)
            | none ↦ file_request (new_request now id repo session_id trimmed) db
          ]))

  unfoldable pub approve : (now id : Text) → Database → Result Error (Entry × Database)
  approve now id db = statement begin (
      statement select_request (elim (request_by_id id db.requests) [
        | none ↦ err (sentinel not_found)
        | some r ↦
            and_then
              (add_tx
                (record {
                  repo = r.repo;
                  source = by_request;
                  request_session_id = r.session_id;
                  added_at = now;
                })
                db)
              λ done. statement delete_requests (
                committed (
                  done.entry,
                  record done.db {
                    requests = deleted (λ (q : Request). text_eq q.repo r.repo) done.db.requests;
                  },
                ))
      ]))

  unfoldable pub reject : (id : Text) → Database → Result Error Database
  reject id db = statement delete_requests (
      if any (λ (r : Request). text_eq r.id id) db.requests
      then ok record db { requests = deleted (λ (r : Request). text_eq r.id id) db.requests }
      else err (sentinel not_found))
