-- ===== src/Slots/Reclaim.antt =====
-- control-plane/internal/adapter/k8s/auth_pool.go: when the Lease of a slot counts as free.
use session_platform.Prelude.{
  ℕ, ◌+◌, ◌≤◌, ◌≡◌, ◌≢◌, ◌↔◌, ◌⊎◌, inl, inr, refl, Bool, true, false, Option, none, some, [], Text,
  is_empty, ltb, arith, Result, ok, Action, Bool-cases, ap, pure, ◌∷◌, if◌then◌else◌,
}
use session_platform.Session.Errors.{Error}
use session_platform.Kubernetes.{Lease, Api}
use session_platform.Slots.Leases.{lease_holder}
use session_platform.Slots.Pool.{Claims, AuthPoolConfig, renewed_at, is_free}

-- Who may be displaced: a holder whose last renewal is at least the grace back, and of whom the caller says that it
-- is stale.
pub record Displaced {W : Type 0} (now renewed grace : ℕ) (holder : Text)
    (stale : Option (Text → Action W Error Bool)) (w w' : W) : Type 0 where
  pub ask : Text → Action W Error Bool
  pub asked : stale ≡ some ask
  pub old : renewed + grace ≤ now
  pub answered : ask holder w ≡ (ok true, w')

module _ {W : Type 0} (now renewed grace : ℕ) (w w' : W) where
  -- The rule on the values that it reads.
  abbrev rule : Text → Option (Text → Action W Error Bool) → Action W Error Bool
  rule holder stale = if is_empty holder then pure true else elim stale [
    | none ↦ pure false
    | some ask ↦ if ltb now (renewed + grace) then pure false else ask holder
  ]

  rule_lem :
      (holder : Text) (stale : Option (Text → Action W Error Bool))
      → rule holder stale w ≡ (ok true, w')
      → ((holder ≡ []) × (w ≡ w')) ⊎ ((holder ≢ []) × Displaced now renewed grace holder stale w w')
  rule_lem [] stale h = inl (refl, ap (λ (p : Result Error Bool × W). p.1) h)
  rule_lem (c ∷ t) none h = absurd (ground (arith, h))
  rule_lem (c ∷ t) (some ask) h = elim (Bool-cases (ltb now (renewed + grace))) [
    | inl young ↦ absurd (ground (arith, h, young))
    | inr aged ↦ inr (
      λ e. cc,
      record {
        ask = ask;
        asked = refl;
        old = ground (arith, aged);
        answered = ground (arith, h, aged);
      },
    )
  ]

  rule_free :
      (stale : Option (Text → Action W Error Bool)) → w ≡ w' → rule [] stale w ≡ (ok true, w')
  rule_free stale same = ap (λ v. (ok true, v)) same

  rule-Displaced :
      (holder : Text) (stale : Option (Text → Action W Error Bool))
      → holder ≢ []
      → Displaced now renewed grace holder stale w w'
      → rule holder stale w ≡ (ok true, w')
  rule-Displaced [] stale held d = absurd (held refl)
  rule-Displaced (c ∷ t) stale held d = ground (arith, d.asked, d.old, d.answered)

-- The Lease of a slot is judged free exactly when it names no holder, or when its holder was last renewed at
-- least the reclaim grace ago and the caller answers that this holder is stale.
pub is_free_iff :
    {W : Type 0} (k8s : Api W) (claims : Claims W) (namespace : Text) (cfg : AuthPoolConfig)
    (stale : Option (Text → Action W Error Bool)) (lease : Lease) (w w' : W)
    → (is_free k8s claims namespace cfg stale lease w ≡ (ok true, w')) ↔ (
        ((lease_holder lease ≡ []) × (w ≡ w'))
        ⊎ ((lease_holder lease ≢ [])
            × Displaced
                (k8s.now w)
                (renewed_at k8s claims namespace cfg lease)
                cfg.reclaim_grace
                (lease_holder lease)
                stale
                w
                w'))
unfolding is_free
is_free_iff {W} k8s claims namespace cfg stale lease w w' = (
  rule_lem (k8s.now w) renewed cfg.reclaim_grace w w' (lease_holder lease) stale,
  λ d. elim d [
    | inl free ↦ back (lease_holder lease) free
    | inr displaced ↦
        rule-Displaced (k8s.now w) renewed cfg.reclaim_grace w w' (lease_holder lease) stale
          displaced.0 displaced.1
  ],
)
  where
    renewed : ℕ
    renewed = renewed_at k8s claims namespace cfg lease

    back :
        (holder : Text)
        → (holder ≡ []) × (w ≡ w')
        → rule (k8s.now w) renewed cfg.reclaim_grace w w' holder stale w ≡ (ok true, w')
    back [] free = rule_free (k8s.now w) renewed cfg.reclaim_grace w w' stale free.1
    back (c ∷ t) free = absurd (ground (arith, free))
