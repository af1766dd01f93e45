-- ===== src/RepoAccess/History.antt =====
-- control-plane/internal/repoaccess/store.go: any sequence of operations on the tables.
pub mod Changes
pub mod Performed
pub mod Consistent
pub mod Granted
use session_platform.Prelude.{Option, List, [], ◌∷◌, Text, Result, ok, err}
use session_platform.Session.Errors.{Error}
use session_platform.RepoAccess.Store.{Database, Statement, add, remove, request, approve, reject}

-- The calls that write, with the time and the identifier that they drew.
pub data Operation : Type 0 where
  adding : (now raw : Text) → Operation
  removing : (raw : Text) → Operation
  requesting : (now id raw session_id reason : Text) → Operation
  approving : (now id : Text) → Operation
  rejecting : (id : Text) → Operation

-- A call with the statements that the database refuses it.
pub record Call : Type 0 where
  pub operation : Operation
  pub fails : Statement → Option Error

abbrev pub kept_or : {A : Type 0} → Database → (A → Database) → Result Error A → Database
kept_or db f (ok a) = f a
kept_or db f (err e) = db

unfoldable pub perform : Operation → (Statement → Option Error) → Database → Database
perform (adding now raw) fails db = kept_or db (λ done. done.db) (add fails now raw db)
perform (removing raw) fails db = kept_or db (λ done. done.1) (remove fails raw db)
perform (requesting now id raw session_id reason) fails db =
    kept_or db (λ done. done.1) (request fails now id raw session_id reason db)
perform (approving now id) fails db = kept_or db (λ done. done.1) (approve fails now id db)
perform (rejecting id) fails db = kept_or db (λ db. db) (reject fails id db)

abbrev pub empty_database : Database
empty_database = record { allowlist = []; requests = [] }

-- The latest call comes first.
unfoldable pub after : List Call → Database
after [] = empty_database
after (call ∷ earlier) = perform call.operation call.fails (after earlier)
