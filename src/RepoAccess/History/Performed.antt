-- ===== src/RepoAccess/History/Performed.antt =====
-- control-plane/internal/repoaccess/store.go: every call makes one of the changes, or none.
use session_platform.Prelude.{
  ◌≡◌, refl, sym, subst, Bool, true, false, ◌||◌, any, length, ltb, Option, none, some, List, [],
  ◌∷◌, Text, text_eq, text_eq_sound, is_empty, arith, Result, ok, err, if◌then◌else◌,
}
use session_platform.Prelude.Yields.{
  Yields, Yields-and_then, Yields-ok, Yields-err, Yields-if, Yields-test, Yields-option,
}
use session_platform.Session.Errors.{Error, sentinel, not_found, failed}
use session_platform.Session.Models.{trim_space}
use session_platform.RepoAccess.Names.{normalize_repo, normalize_repo-IsCanonical}
use session_platform.RepoAccess.Store.{
  Entry, Request, Database, Added, Statement, begin, select_allowed, insert_allowed, delete_allowed,
  select_request, draw_id, insert_request, delete_requests, commit, find_entry, request_by_id,
  request_by_key, statement, add_tx, add, remove, insert, Answer, file_request, request, approve,
  reject, max_reason_runes, manual, by_request, new_request,
}
use session_platform.RepoAccess.History.{
  Operation, adding, removing, requesting, approving, rejecting, perform, kept_or,
}
use session_platform.RepoAccess.History.Changes.{
  IsAdding, IsAsking, IsApproving, IsFiled, conflicts, with_entry, without_requests, Changes,
  unchanged, listed, unlisted, filed, cleared, granted,
}

request_by_id_sound :
    (id : Text) (rs : List Request) {r : Request} → request_by_id id rs ≡ some r → id ≡ r.id
unfolding request_by_id
request_by_id_sound id [] h = absurd (ground (arith, h))
request_by_id_sound id (q ∷ rs) {r} h = by_test (text_eq q.id id) refl h (request_by_id_sound id rs)
  where
    by_test :
        (b : Bool)
        → text_eq q.id id ≡ b
        → (if b then some q else request_by_id id rs) ≡ some r
        → (request_by_id id rs ≡ some r → id ≡ r.id)
        → id ≡ r.id
    by_test true t e later =
        let same : q ≡ r = ground (arith, e) in
        subst (λ (r : Request). id ≡ r.id) same (sym (text_eq_sound q.id id t))
    by_test false t e later = later e

-- What a transaction has done when it added an entry.
data Grows (e : Entry) (db : Database) : Database → Type 0 where
  already : Grows e db db
  grown : find_entry e.repo db.allowlist ≡ none → Grows e db (with_entry e db)

module _ (fails : Statement → Option Error) where
  -- A call's statement may fail; otherwise what follows decides.
  Yields-statement :
      {A : Type 0} {Q : A → Type 0} (s : Statement) {next : Result Error A}
      → Yields Q next
      → Yields Q (statement fails s next)
  Yields-statement s h = Yields-option (fails s) (λ e. h) λ e f. Yields-err e

  add_tx-Grows :
      (e : Entry) (db : Database)
      → Yields (λ (done : Added). Grows e db done.db) (add_tx fails e db)
  unfolding add_tx
  add_tx-Grows e db = Yields-statement select_allowed (
      Yields-option (find_entry e.repo db.allowlist)
        (λ fresh. Yields-statement insert_allowed (Yields-ok _ (grown fresh)))
        λ old f. Yields-ok _ already)

  add-Changes :
      (now raw : Text) (db : Database)
      → Yields (λ (done : Added). Changes (adding now raw) db done.db) (add fails now raw db)
  unfolding add IsAdding
  add-Changes now raw db = Yields-and_then (normalize_repo raw) λ repo n. Yields-statement begin (
      Yields-and_then (add_tx fails (entry repo) db) λ done d.
        Yields-statement commit
          (Yields-ok done (by_growth repo n ((add_tx-Grows (entry repo) db).at done d))))
    where
      entry : Text → Entry
      entry repo = record { repo = repo; source = manual; request_session_id = []; added_at = now }

      by_growth :
          (repo : Text) {after : Database}
          → normalize_repo raw ≡ ok repo
          → Grows (entry repo) db after
          → Changes (adding now raw) db after
      by_growth repo n already = unchanged
      by_growth repo n (grown fresh) =
          listed (entry repo) fresh (normalize_repo-IsCanonical raw n) n

  remove-Changes :
      (raw : Text) (db : Database)
      → Yields (λ (done : Bool × Database). Changes (removing raw) db done.1) (remove fails raw db)
  unfolding remove
  remove-Changes raw db =
      Yields-and_then (normalize_repo raw)
        λ repo n. Yields-statement delete_allowed (Yields-ok _ (unlisted λ e. text_eq e.repo repo))

  file_request-Changes :
      (op : Operation) (r : Request) (db : Database)
      → IsFiled r
      → IsAsking r op
      → Yields (λ (done : Answer × Database). Changes op db done.1) (file_request fails r db)
  unfolding file_request insert
  file_request-Changes op r db is_filed asking = Yields-statement select_request (
      Yields-option (request_by_key r.repo r.session_id db.requests)
        (λ fresh. Yields-statement draw_id (
          Yields-statement insert_request (
            Yields-and_then (insert fails r db)
              λ db' i. Yields-statement commit (Yields-ok _ (inserted.at db' i)))))
        λ old f. Yields-statement commit (Yields-ok _ unchanged))
    where
      inserted : Yields (Changes op db) (insert fails r db)
      inserted =
          Yields-test (any (conflicts r) db.requests) (λ t. Yields-err (failed 81))
            λ fresh. Yields-ok _ (filed r fresh is_filed asking)

  request-Changes :
      (now id raw session_id reason : Text) (db : Database)
      → Yields
          (λ (done : Answer × Database).
            Changes (requesting now id raw session_id reason) db done.1)
          (request fails now id raw session_id reason db)
  unfolding request IsAsking
  request-Changes now id raw session_id reason db = Yields-and_then (normalize_repo raw) λ repo n.
      Yields-test
        (is_empty (trim_space reason) || ltb max_reason_runes (length (trim_space reason)))
        (λ t. Yields-err (failed 82))
        λ bounded.
          Yields-test (is_empty (trim_space session_id)) (λ t. Yields-err (failed 83))
            λ asked. Yields-statement begin (
              Yields-statement select_allowed (
                Yields-option (find_entry repo db.allowlist)
                  (λ fresh.
                    file_request-Changes (requesting now id raw session_id reason)
                      (new_request fails now id repo session_id (trim_space reason)) db
                      (record {
                        canonical = normalize_repo-IsCanonical raw n;
                        reasoned = ground (arith, bounded);
                        short = ground (arith, bounded);
                        asked = asked;
                      })
                      (n, refl, refl))
                  λ e f. Yields-statement commit (Yields-ok _ unchanged)))

  approve-Changes :
      (now id : Text) (db : Database)
      → Yields
          (λ (done : Entry × Database). Changes (approving now id) db done.1)
          (approve fails now id db)
  unfolding approve IsApproving
  approve-Changes now id db = Yields-statement begin (
      Yields-statement select_request (
        Yields-option (request_by_id id db.requests) (λ missing. Yields-err (sentinel not_found))
          λ r f. Yields-and_then (add_tx fails (entry r) db) λ done d.
            Yields-statement delete_requests (
              Yields-statement commit
                (Yields-ok _ (by_growth r f ((add_tx-Grows (entry r) db).at done d))))))
    where
      entry : Request → Entry
      entry r = record {
        repo = r.repo;
        source = by_request;
        request_session_id = r.session_id;
        added_at = now;
      }

      by_growth :
          (r : Request) {after : Database}
          → request_by_id id db.requests ≡ some r
          → Grows (entry r) db after
          → Changes (approving now id) db (without_requests (λ q. text_eq q.repo r.repo) after)
      by_growth r f already = cleared λ q. text_eq q.repo r.repo
      by_growth r f (grown fresh) =
          let same : id ≡ r.id = request_by_id_sound id db.requests f in
          granted r (entry r) (λ q. text_eq q.repo r.repo) fresh
            (subst (λ id. request_by_id id db.requests ≡ some r) same f) refl refl same

  reject-Changes :
      (id : Text) (db : Database) → Yields (Changes (rejecting id) db) (reject fails id db)
  unfolding reject
  reject-Changes id db = Yields-statement delete_requests (
      Yields-if (any (λ (r : Request). text_eq r.id id) db.requests)
        (Yields-ok _ (cleared λ r. text_eq r.id id)) (Yields-err (sentinel not_found)))

  -- A call that fails leaves the tables as they were.
  kept_or-Changes :
      {A : Type 0} (op : Operation) (db : Database) (f : A → Database) (r : Result Error A)
      → Yields (λ a. Changes op db (f a)) r
      → Changes op db (kept_or db f r)
  kept_or-Changes op db f (ok a) y = y.at a refl
  kept_or-Changes op db f (err e) y = unchanged

  pub perform-Changes : (op : Operation) (db : Database) → Changes op db (perform op fails db)
  unfolding perform
  perform-Changes (adding now raw) db =
      kept_or-Changes _ db (λ done. done.db) _ (add-Changes now raw db)
  perform-Changes (removing raw) db =
      kept_or-Changes _ db (λ done. done.1) _ (remove-Changes raw db)
  perform-Changes (requesting now id raw session_id reason) db =
      kept_or-Changes _ db (λ done. done.1) _ (request-Changes now id raw session_id reason db)
  perform-Changes (approving now id) db =
      kept_or-Changes _ db (λ done. done.1) _ (approve-Changes now id db)
  perform-Changes (rejecting id) db = kept_or-Changes _ db (λ db. db) _ (reject-Changes id db)
