-- ===== src/Store/Takeover.antt =====
-- control-plane/internal/adapter/configmap/store.go: when an occupancy lock can be taken, and the lifecycle
-- fence that it puts on the record.
use session_platform.Prelude.{
  ℕ, ◌+◌, ◌*◌, ◌<◌, ◌≡◌, refl, ap, ◌∙◌, subst, inl, inr, ◌⊎◌, true, false, Option, none, some, Text,
  text_eq, text_eq_iff, arith, Result, ok, run-cases, Bool-cases,
}
use session_platform.Session.Errors.{ApiError}
use session_platform.Kubernetes.{Lease, Api, second}
use session_platform.Kubernetes.Versions.{Versioned, Seen, lease-old}
use session_platform.Store.Objects.{lock_name, lease_seconds}
use session_platform.Store.Leases.{
  holds, past_deadline, held_by_us_or_expired, lease_for, lock, take_over, finish_lock,
}
use session_platform.Store.Onward.{finished-later}

-- The rule by which a Lease may change hands: the taker holds it, or it was last renewed more than its
-- duration ago.
abbrev pub MayTake : Text → ℕ → Lease → Type 0
MayTake token now l =
    (l.holder_identity ≡ some token)
    ⊎ ((renewed : ℕ) × (dur : ℕ) × (l.renew_time ≡ some renewed)
        × (l.lease_duration_seconds ≡ some dur)
        × (renewed + dur * second < now))

held_by_us_or_expired-MayTake :
    (l : Lease) (token : Text) (now : ℕ)
    → held_by_us_or_expired l token now ≡ true
    → MayTake token now l
unfolding held_by_us_or_expired
held_by_us_or_expired-MayTake l token now h = elim (Bool-cases (holds l token)) [
  | inl ours ↦ inl (holder_lem l.holder_identity ours)
  | inr other ↦ inr (expired_lem l.renew_time l.lease_duration_seconds (ground arith))
]
  where
    holder_lem :
        (o : Option Text)
        → elim o [ none ↦ false | some holder ↦ text_eq holder token ] ≡ true
        → o ≡ some token
    holder_lem none e = cc
    holder_lem (some t) e = ground (arith, text_eq_iff t token)

    expired_lem :
        (r d : Option ℕ)
        → past_deadline r d now ≡ true
        → (renewed : ℕ) × (dur : ℕ) × (r ≡ some renewed)
          × (d ≡ some dur)
          × (renewed + dur * second < now)
    expired_lem none d e = cc
    expired_lem (some renewed) none e = cc
    expired_lem (some renewed) (some dur) e = (renewed, dur, refl, refl, ground arith)

module _ {W : Type 0} (k8s : Api W) (lease_dur : ℕ) (laws : Versioned k8s) (id token : Text) where
  -- The one write of the call that granted the lock: what stood there before it and what after. `asked` is when
  -- the caller looked at its clock.
  pub record Acquired (w w' : W) : Type 0 where
    pub asked : W
    pub before : W
    pub behind : W
    pub granted : Lease
    pub asked_in : laws.Later w asked
    pub started : laws.Later asked before
    pub happened : laws.Next before behind
    pub returned : laws.Later behind w'
    pub free :
        (laws.lease before (lock_name id) ≡ none)
        ⊎ ((l : Lease) × (laws.lease before (lock_name id) ≡ some l)
            × MayTake token (k8s.now asked) l)
    pub held : laws.lease behind (lock_name id) ≡ some granted
    pub holder : granted.holder_identity ≡ some token
    pub renewed : granted.renew_time ≡ some (k8s.now asked)

  take_over-Acquired :
      (l : Lease) (w v w' : W)
      → Seen laws.Later laws.lease (lock_name id) w v l
      → l.name ≡ lock_name id
      → take_over k8s lease_dur id token l v ≡ (ok tt, w')
      → Acquired w w'
  unfolding take_over
  take_over-Acquired l w v w' seen named h = elim (run-cases (k8s.update_lease target) v) [
    | inr (c, u, e) ↦ absurd (ground arith)
    | inl (answer, u, e) ↦
        let (won, holder, renewed) =
          laws.update_lease_lem (lock_name id) l.resource_version target answer v u named refl e in
        let finished : finish_lock k8s lease_dur id token u ≡ (ok tt, w') = ground (arith, h, e) in
        record {
          asked = v;
          before = won.at;
          behind = won.next;
          granted = answer;
          asked_in = laws.later_trans w seen.at v seen.started seen.returned;
          started = won.started;
          happened = won.happened;
          returned =
              laws.later_trans won.next u w' won.returned
                (finished-later k8s lease_dur laws id token u w' finished);
          free = inr (
            l,
            won.stored ∙ ap some (lease-old laws (lock_name id) w v u l seen won),
            held_by_us_or_expired-MayTake l token (k8s.now v) (ground arith),
          );
          held = won.left;
          holder = holder;
          renewed = renewed;
        }
  ]
    where
      target : Lease
      target = record l {
        holder_identity = some token;
        acquire_time = some (k8s.now v);
        renew_time = some (k8s.now v);
        lease_duration_seconds = some (lease_seconds lease_dur);
      }

  lease_for-name : (now : ℕ) → (lease_for k8s lease_dur id token now).name ≡ lock_name id
  unfolding lease_for
  lease_for-name now = refl

  lease_for-held :
      (now : ℕ)
      → ((lease_for k8s lease_dur id token now).holder_identity ≡ some token)
        × ((lease_for k8s lease_dur id token now).renew_time ≡ some now)
  unfolding lease_for
  lease_for-held now = (refl, refl)

  lock-Acquired_lem : (w w' : W) → lock k8s lease_dur id token w ≡ (ok tt, w') → Acquired w w'
  unfolding lock
  lock-Acquired_lem w w' h =
      elim (run-cases (k8s.create_lease (lease_for k8s lease_dur id token (k8s.now w))) w) [
        | inl (answer, v, e) ↦
            let (made, holder, renewed) =
              laws.create_lease_lem (lock_name id) (lease_for k8s lease_dur id token (k8s.now w))
                answer w v (lease_for-name (k8s.now w)) e in
            let finished : finish_lock k8s lease_dur id token v ≡ (ok tt, w') =
              ground (arith, h, e) in
            record {
              asked = w;
              before = made.at;
              behind = made.next;
              granted = answer;
              asked_in = laws.later_refl w;
              started = made.started;
              happened = made.happened;
              returned =
                  laws.later_trans made.next v w' made.returned
                    (finished-later k8s lease_dur laws id token v w' finished);
              free = inl made.absent;
              held = made.left;
              holder = holder ∙ (lease_for-held (k8s.now w)).0;
              renewed = renewed ∙ (lease_for-held (k8s.now w)).1;
            }
        | inr (c, v, e) ↦ elim (run-cases (k8s.get_lease (lock_name id)) v) [
          | inr (c', u, e') ↦ absurd (ground arith)
          | inl (l, u, e') ↦
              let (seen, named) = laws.get_lease_lem (lock_name id) v u l e' in
              let got = take_over-Acquired l v u w' seen named (ground arith) in
              record {
                asked = got.asked;
                before = got.before;
                behind = got.behind;
                granted = got.granted;
                asked_in =
                    laws.later_trans w v got.asked
                      (subst (λ x. laws.Later w x) (ap (λ (p : Result ApiError Lease × W). p.1) e)
                        (laws.create_lease_later (lease_for k8s lease_dur id token (k8s.now w)) w))
                      got.asked_in;
                started = got.started;
                happened = got.happened;
                returned = got.returned;
                free = got.free;
                held = got.held;
                holder = got.holder;
                renewed = got.renewed;
              }
        ]
      ]

-- A lock that is granted was never taken from a live holder, whatever other replicas do meanwhile: it is one write
-- between the call's start and its end. Just before this write there was no Lease, or it was the caller's own
-- already, or its last renewal lay more than its whole duration before the time that the caller's clock showed at a
-- moment of the call before the write. Just after it the Lease names the caller and is renewed at that time.
pub lock-Acquired :
    {W : Type 0} (k8s : Api W) (lease_dur : ℕ) (laws : Versioned k8s) (id token : Text) (w w' : W)
    → lock k8s lease_dur id token w ≡ (ok tt, w')
    → Acquired k8s lease_dur laws id token w w'
lock-Acquired k8s lease_dur laws id token w w' h =
    lock-Acquired_lem k8s lease_dur laws id token w w' h
