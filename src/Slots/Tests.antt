-- ===== src/Slots/Tests.antt =====
-- control-plane/internal/adapter/k8s/auth_pool.go: runs of the pool on a concrete list of Leases.
use session_platform.Prelude.{
  ℕ, ◌+◌, ◌≡◌, ◌≢◌, ◌↔◌, ◌⊎◌, refl, Bool, true, none, some, List, [], ◌∷◌, Text, codes, text_eq,
  lookup, Result, ok, err, Action,
}
use session_platform.Session.Errors.{Error, missing, refused}
use session_platform.Session.Models.{trim_space}
use session_platform.Kubernetes.{Lease, Api}
use session_platform.Slots.Leases.{
  itoa, slot_number, auth_slot_lease_name, labels, lease_slot, lease_holder, auth_state_rank,
  put_slot, slot_lease, slot_map, held_slot,
}
use session_platform.Slots.Pool.{
  Claims, AuthPoolConfig, SlotCandidate, renewed_at, list_leases, is_free, claim_slot, ensure_claim,
  insert_candidate, sort_candidates,
}
use session_platform.Slots.Acquire.{
  judge_slot, judge_slots, claim_first, lease_free_slot, acquire_round, acquire_loop, acquire,
  never_leased, candidate,
}
use session_platform.Slots.Reclaim.{Displaced, is_free_iff}
use session_platform.Slots.Won.{Writes, noting_api, unseen_claims, Granted}
use session_platform.Slots.Grants.{acquire-Granted}

abbrev cfg : AuthPoolConfig
cfg = record {
  pool = codes "p";
  slots = 2;
  storage_class = [];
  storage_size = codes "16Mi";
  reclaim_grace = 10;
}

-- The Lease of slot 0, last renewed at 3 by a session that is gone.
abbrev stale_lease : Lease
stale_lease = record {
  name = codes "p-auth-0";
  labels = labels (codes "p") 0;
  annotations = [];
  creation_timestamp = 1;
  holder_identity = some (codes "gone");
  lease_duration_seconds = none;
  acquire_time = some 3;
  renew_time = some 3;
  resource_version = 8;
}

-- A server with that Lease, which accepts every write; the clock stands at 20.
abbrev api : Api ℕ
api = record {
  get_config_map = λ name w. (err missing, w);
  list_config_maps = λ key value w. (err (refused 0), w);
  create_config_map = λ cm w. (err (refused 0), w);
  update_config_map = λ cm w. (err (refused 0), w);
  delete_config_map = λ name sent w. (err (refused 0), w);
  get_lease = λ name w. (ok stale_lease, w);
  list_leases = λ key value w. (ok (stale_lease ∷ []), w);
  create_lease = λ l w. (ok l, w + 1);
  update_lease = λ l w. (ok l, w + 1);
  delete_lease = λ name sent w. (err (refused 0), w);
  now = λ w. 20;
  ctx_err = λ w. none;
}

abbrev claims : Claims ℕ
claims = record { get_claim = λ name w. (ok tt, w); create_claim = λ c w. (ok tt, w) }

abbrev all_stale : {W : Type 0} → Text → Action W Error Bool
all_stale holder w = (ok true, w)

abbrev start : ℕ
start = 0

is_free_iff_example :
    (is_free api claims (codes "ns") cfg (some all_stale) stale_lease start ≡ (ok true, start)) ↔ (
      ((lease_holder stale_lease ≡ []) × (start ≡ start))
      ⊎ ((lease_holder stale_lease ≢ [])
          × Displaced
              (api.now start)
              (renewed_at api claims (codes "ns") cfg stale_lease)
              cfg.reclaim_grace
              (lease_holder stale_lease)
              (some all_stale)
              start
              start))
is_free_iff_example =
    is_free_iff api claims (codes "ns") cfg (some all_stale) stale_lease start start

abbrev acquired : Result Error ℕ × (ℕ × Writes)
acquired =
    acquire (noting_api api) (unseen_claims claims) (codes "ns") cfg (codes "s1") (some all_stale)
      (0, [])

acquire_run : acquired ≡ (ok 0, acquired.1)
unfolding acquire list_leases slot_map lease_slot slot_number auth_slot_lease_name labels itoa
    text_eq lookup put_slot held_slot lease_holder trim_space acquire_loop acquire_round
    lease_free_slot judge_slots judge_slot slot_lease is_free auth_state_rank sort_candidates
    insert_candidate claim_first claim_slot ensure_claim
acquire_run = refl

acquire-Granted_example : Granted (codes "p") (codes "s1") 0 acquired.1.1
acquire-Granted_example =
    acquire-Granted api claims (codes "ns") cfg (codes "s1") (some all_stale) 0 0 acquired.1
      acquire_run

abbrev candidates : List SlotCandidate
candidates = never_leased 0 ∷ candidate 1 stale_lease ∷ []
