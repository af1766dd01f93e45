-- ===== src/RepoAccess/History/Granted.antt =====
-- control-plane/internal/repoaccess/store.go: where the rows of the tables come from.
use session_platform.Prelude.{◌≡◌, ◌⊎◌, inl, inr, Bool, List, [], ◌∷◌, All}
use session_platform.RepoAccess.Store.{Entry, Request, Database}
use session_platform.RepoAccess.History.{Operation, Call, after}
use session_platform.RepoAccess.History.Performed.{perform-Changes}
use session_platform.RepoAccess.History.Changes.{
  IsAdding, IsAsking, IsApproving, Changes, unchanged, listed, unlisted, filed, cleared, granted,
  with_entry, without_requests,
}
use session_platform.RepoAccess.History.Consistent.{deleted-All, request_by_id-All}

pub Occurs : (Operation → Type 0) → List Call → Type 0
Occurs P [] = ⊥
Occurs P (call ∷ earlier) = P call.operation ⊎ Occurs P earlier

pub record IsApproved (calls : List Call) (e : Entry) : Type 0 where
  pub request : Request
  pub same_repo : request.repo ≡ e.repo
  pub same_session : request.session_id ≡ e.request_session_id
  pub asked : Occurs (IsAsking request) calls
  pub approved : Occurs (IsApproving request.id) calls

-- By an operator's own addition or by the approval of a session's request.
pub Granted : List Call → Entry → Type 0
Granted calls e = Occurs (IsAdding e.repo) calls ⊎ IsApproved calls e

pub record Recorded (calls : List Call) (db : Database) : Type 0 where
  pub entries : All (Granted calls) db.allowlist
  pub requests : All (λ (r : Request). Occurs (IsAsking r) calls) db.requests

All-map {ℓ} :
    {A : Type ℓ} (P Q : A → Type 0) → ((a : A) → P a → Q a) → (xs : List A) → All P xs → All Q xs
All-map P Q f [] h = tt
All-map P Q f (x ∷ xs) h = (f x h.0, All-map P Q f xs h.1)

Recorded-later :
    (call : Call) (calls : List Call) (db : Database)
    → Recorded calls db
    → Recorded (call ∷ calls) db
unfolding Occurs Granted
Recorded-later call calls db h = record {
  entries = All-map (Granted calls) (Granted (call ∷ calls)) later db.allowlist h.entries;
  requests =
      All-map (λ (r : Request). Occurs (IsAsking r) calls)
        (λ (r : Request). Occurs (IsAsking r) (call ∷ calls)) (λ r o. inr o) db.requests h.requests;
}
  where
    later : (e : Entry) → Granted calls e → Granted (call ∷ calls) e
    later e (inl o) = inl (inr o)
    later e (inr a) = inr (record {
      request = a.request;
      same_repo = a.same_repo;
      same_session = a.same_session;
      asked = inr a.asked;
      approved = inr a.approved;
    })

Asked : List Call → Request → Type 0
Asked calls r = Occurs (IsAsking r) calls

cleared-Recorded :
    (calls : List Call) (hit : Request → Bool) (db : Database)
    → Recorded calls db
    → Recorded calls (without_requests hit db)
unfolding Asked
cleared-Recorded calls hit db h = record {
  entries = h.entries;
  requests = deleted-All (Asked calls) hit db.requests h.requests;
}

-- By the newest call, whose tables are those that were recorded for it as well.
change-Recorded :
    (call : Call) (earlier : List Call) (db : Database) {after : Database}
    → Recorded (call ∷ earlier) db
    → Changes call.operation db after
    → Recorded (call ∷ earlier) after
unfolding Occurs Granted Asked
change-Recorded call earlier db h unchanged = h
change-Recorded call earlier db h (listed e fresh canonical adding) = record {
  entries = (inl (inl adding), h.entries);
  requests = h.requests;
}
change-Recorded call earlier db h (unlisted hit) = record {
  entries = deleted-All (Granted (call ∷ earlier)) hit db.allowlist h.entries;
  requests = h.requests;
}
change-Recorded call earlier db h (filed r fresh is_filed asking) = record {
  entries = h.entries;
  requests = (inl asking, h.requests);
}
change-Recorded call earlier db h (cleared hit) = cleared-Recorded (call ∷ earlier) hit db h
change-Recorded call earlier db h (granted r e hit fresh waiting same_repo same_session approving) =
    cleared-Recorded (call ∷ earlier) hit (with_entry e db) (record {
      entries = (
        inr (record {
          request = r;
          same_repo = same_repo;
          same_session = same_session;
          asked = request_by_id-All (Asked (call ∷ earlier)) r.id db.requests h.requests waiting;
          approved = inl approving;
        }),
        h.entries,
      );
      requests = h.requests;
    })

-- Whatever calls are made and whichever of their statements fail: the repository of every entry was added by an
-- operator, or a session asked for it and the entry names that session and its request was approved; and for
-- every request that waits its session asked.
pub after-Recorded : (calls : List Call) → Recorded calls (after calls)
unfolding after
after-Recorded [] = record { entries = tt; requests = tt }
after-Recorded (call ∷ earlier) =
    change-Recorded call earlier (after earlier)
      (Recorded-later call earlier (after earlier) (after-Recorded earlier))
      (perform-Changes call.fails call.operation (after earlier))
