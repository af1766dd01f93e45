-- ===== src/Tenancy/Claims.antt =====
-- control-plane/internal/tenancy/tenancy.go: whom an account of a parsed configuration speaks for.
use session_platform.Prelude.{
  ◌≡◌, refl, Bool, true, false, any, none, some, List, [], ◌∷◌, Text, text_eq, text_eq_sound,
  text_eq_refl, lookup, insert, lookup-insert, arith, Result, ok, subst, ◌∙◌, if◌then◌else◌,
  Result-cases, Bool-cases, is_empty, inl, inr,
}
use session_platform.Session.Errors.{Error}
use session_platform.Session.Models.{trim_space}
use session_platform.Tenancy.Callers.{Tenant, Config}
use session_platform.Tenancy.Parse.{claim_accounts, add_tenant, add_tenants, no_tenants, parse}

-- Each account is one that its tenant names.
abbrev Owned : List (Text × Tenant) → Type 0
Owned m =
    (account : Text) (t : Tenant)
    → lookup account m ≡ some t
    → any (text_eq account) t.service_accounts ≡ true

same_tenant :
    (account : Text) (t u : Tenant)
    → t ≡ u
    → any (text_eq account) t.service_accounts ≡ true
    → any (text_eq account) u.service_accounts ≡ true
same_tenant account t u e h =
    subst (λ (x : Tenant). any (text_eq account) x.service_accounts ≡ true) e h

Owned-insert :
    (account : Text) (t : Tenant) (m : List (Text × Tenant))
    → any (text_eq account) t.service_accounts ≡ true
    → Owned m
    → Owned (insert account t m)
Owned-insert account t m named h other u e =
    by_key (text_eq account other) (text_eq_sound account other)
      (lookup-insert account other t m ∙ refl)
  where
    by_key :
        (b : Bool)
        → (b ≡ true → account ≡ other)
        → lookup other (insert account t m) ≡ (if b then some t else lookup other m)
        → any (text_eq other) u.service_accounts ≡ true
    by_key true same f =
        subst (λ x. any (text_eq x) u.service_accounts ≡ true) (same refl)
          (same_tenant account t u (ground (arith, e, f)) named)
    by_key false same f = h other u (ground (arith, e, f))

-- Of the accounts still to enter, all are the tenant's.
abbrev Among : Tenant → List Text → Type 0
Among t accounts =
    (a : Text) → any (text_eq a) accounts ≡ true → any (text_eq a) t.service_accounts ≡ true

claim_accounts-Owned :
    (t : Tenant) (accounts : List Text) (m n : List (Text × Tenant))
    → Among t accounts
    → Owned m
    → claim_accounts t accounts m ≡ ok n
    → Owned n
unfolding claim_accounts
claim_accounts-Owned t [] m n among h e = subst Owned (ground (arith, e)) h
claim_accounts-Owned t (a ∷ accounts) m n among h e =
    claim_accounts-Owned t accounts (insert a t m) n (λ b k. among b (ground (arith, k)))
      (Owned-insert a t m (among a (ground (arith, text_eq_refl a))) h) (ground (arith, e))

add_tenant-Owned :
    (cfg : Config) (t : Tenant) (next : Config)
    → Owned cfg.by_account
    → add_tenant cfg t ≡ ok next
    → Owned next.by_account
unfolding add_tenant
add_tenant-Owned cfg t next h e =
    elim (Result-cases (claim_accounts t t.service_accounts cfg.by_account)) [
      | inr (c, f) ↦ absurd (ground (arith, e, f))
      | inl (n, f) ↦
          subst Owned (ground (arith, e, f))
            (claim_accounts-Owned t t.service_accounts cfg.by_account n (λ a k. k) h f)
    ]

add_tenants-Owned :
    (cfg : Config) (ts : List Tenant) (next : Config)
    → Owned cfg.by_account
    → add_tenants cfg ts ≡ ok next
    → Owned next.by_account
unfolding add_tenants
add_tenants-Owned cfg [] next h e =
    let same : cfg ≡ next = ground (arith, e) in subst (λ (c : Config). Owned c.by_account) same h
add_tenants-Owned cfg (t ∷ ts) next h e = elim (Result-cases (add_tenant cfg t)) [
  | inr (c, f) ↦ absurd (ground (arith, e, f))
  | inl (mid, f) ↦
      add_tenants-Owned mid ts next (add_tenant-Owned cfg t mid h f) (ground (arith, e, f))
]

-- In a configuration that was parsed, an account speaks only for a tenant that names it.
pub parse-Owned :
    (decode_file : Text → Result Error (List Tenant)) (raw : Text) (cfg : Config) (account : Text)
    (t : Tenant)
    → parse decode_file raw ≡ ok cfg
    → lookup account cfg.by_account ≡ some t
    → any (text_eq account) t.service_accounts ≡ true
unfolding parse lookup
parse-Owned decode_file raw cfg account t h found = elim (Bool-cases (is_empty (trim_space raw))) [
  | inl blank ↦
      absurd (ground (arith, found, nothing account cfg.by_account (ground (arith, h, blank))))
  | inr text ↦ elim (Result-cases (decode_file raw)) [
    | inr (c, f) ↦ absurd (ground (arith, h, text, f))
    | inl (ts, f) ↦
        add_tenants-Owned no_tenants ts cfg (λ a u e. absurd (ground (arith, e, nothing a [] refl)))
          (ground (arith, h, text, f)) account t found
  ]
]
  where
    nothing : (a : Text) (m : List (Text × Tenant)) → m ≡ [] → lookup a m ≡ none
    nothing a [] e = refl
    nothing a (x ∷ m) e = cc
