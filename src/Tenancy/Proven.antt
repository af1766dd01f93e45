-- ===== src/Tenancy/Proven.antt =====
-- control-plane/internal/tenancy/resolver.go: what a resolved tenant rests on.
use session_platform.Prelude.{
  ◌≡◌, refl, ap, ◌∙◌, Bool, true, false, ◌||◌, any, Option, none, some, List, [], ◌∷◌, ◌++◌, Text,
  codes, text_eq, arith, Result, ok, err, Action, run-cases, Result-cases, subst, text_eq_sound,
  inl, inr,
}
use session_platform.Session.Errors.{Error, ApiError, forbidden}
use session_platform.Tenancy.Callers.{Tenant, Config, for_service_account, Caller, sees}
use session_platform.Tenancy.Resolver.{
  ReviewStatus, cut_prefix, cut_colon, join, service_account_prefix, bearer_prefix, account_of,
  proven_account, tenant_caller, bearer_token, review, resolve,
}

cut_prefix_sound : (p s t : Text) → cut_prefix p s ≡ some t → s ≡ p ++ t
unfolding cut_prefix
cut_prefix_sound [] s t h = ground (arith, h)
cut_prefix_sound (c ∷ p) [] t h = cc
cut_prefix_sound (c ∷ p) (d ∷ s) t h = ground (arith, h, cut_prefix_sound p s t)

cut_colon_sound : (s a b : Text) → cut_colon s ≡ some (a, b) → s ≡ a ++ codes ":" ++ b
unfolding cut_colon
cut_colon_sound [] a b h = cc
cut_colon_sound (c ∷ s) a b h = grind (arith, h, cut_colon_sound s)

-- What stands behind a tenant: a bearer token that a review proved for this audience, of a service account that
-- the tenant claims.
pub record Backed {W : Type 0} (review_token : Text → List Text → Action W ApiError ReviewStatus)
    (audience : Text) (config : Option Config) (header : List Text) (caller : Caller) (w w' : W)
    : Type 0 where
  pub token : Text
  pub status : ReviewStatus
  pub namespace : Text
  pub name : Text
  pub tenant : Tenant
  pub bearer : join header ≡ bearer_prefix ++ token
  pub reviewed : review_token token (audience ∷ []) w ≡ (ok status, w')
  pub authenticated : status.authenticated ≡ true
  pub for_audience : any (text_eq audience) status.audiences ≡ true
  pub account : status.username ≡ service_account_prefix ++ namespace ++ codes ":" ++ name
  pub claimed : for_service_account config namespace name ≡ some tenant
  pub is_tenant : caller ≡ record { operator = false; tenant = some tenant }

bearer_token_sound :
    (header : List Text) (token : Text)
    → bearer_token header ≡ ok token
    → join header ≡ bearer_prefix ++ token
unfolding bearer_token
bearer_token_sound header token h = grind (arith, h, cut_prefix_sound bearer_prefix (join header))

account_of_sound :
    (username namespace name : Text)
    → account_of username ≡ ok (namespace, name)
    → username ≡ service_account_prefix ++ (namespace ++ codes ":" ++ name)
unfolding account_of
account_of_sound username namespace name h =
    grind (arith, h, cut_prefix_sound service_account_prefix username, cut_colon_sound)

module _ {W : Type 0} (review_token : Text → List Text → Action W ApiError ReviewStatus)
    (audience : Text) (config : Option Config) where
  review_sound :
      (token namespace name : Text) (w w' : W)
      → review review_token audience config token w ≡ (ok (namespace, name), w')
      → (status : ReviewStatus) × (review_token token (audience ∷ []) w ≡ (ok status, w'))
        × (proven_account audience status ≡ ok (namespace, name))
  unfolding review
  review_sound token namespace name w w' h =
      elim (run-cases (review_token token (audience ∷ [])) w) [
        | inl (status, v, e) ↦ (status, ground (arith, h, e), ground (arith, h, e))
        | inr (c, v, e) ↦ absurd (ground (arith, h, e))
      ]

proven_account_sound :
    (audience : Text) (status : ReviewStatus) (namespace name : Text)
    → proven_account audience status ≡ ok (namespace, name)
    → (status.authenticated ≡ true)
      × (any (text_eq audience) status.audiences ≡ true)
      × (account_of status.username ≡ ok (namespace, name))
unfolding proven_account
proven_account_sound audience status namespace name h = ground (arith, h)

tenant_caller_sound :
    (config : Option Config) (namespace name : Text) (caller : Caller)
    → tenant_caller config (namespace, name) ≡ ok caller
    → (tenant : Tenant) × (for_service_account config namespace name ≡ some tenant)
      × (caller ≡ record { operator = false; tenant = some tenant })
unfolding tenant_caller
tenant_caller_sound config namespace name caller h =
    by_claim (for_service_account config namespace name) h
  where
    by_claim :
        (o : Option Tenant)
        → (elim o as (λ x. Result Error Caller) [
          | none ↦ err (Error.joined (Error.wrapped (Error.sentinel forbidden)) (Error.failed 6))
          | some t ↦ ok (record { operator = false; tenant = some t })
        ])
          ≡ ok caller
        → (tenant : Tenant) × (o ≡ some tenant)
          × (caller ≡ record { operator = false; tenant = some tenant })
    by_claim none e = cc
    by_claim (some t) e = (t, refl, ground (arith, e))

-- A request that carries the Authorization header and is resolved is never the operator: its header is a bearer
-- token that a review proved for this audience, of a service account that the caller's tenant claims.
pub resolve-Backed :
    {W : Type 0} (review_token : Text → List Text → Action W ApiError ReviewStatus)
    (audience : Text) (config : Option Config) (header : List Text) (caller : Caller) (w w' : W)
    → resolve review_token audience config (some header) w ≡ (ok caller, w')
    → Backed review_token audience config header caller w w'
unfolding resolve
resolve-Backed review_token audience config header caller w w' h =
    elim (Result-cases (bearer_token header)) [
      | inr (c, e) ↦ absurd (ground (arith, h, e))
      | inl (token, bearer) ↦ elim (run-cases (review review_token audience config token) w) [
        | inr (c, v, e) ↦ absurd (ground (arith, h, bearer, e))
        | inl ((namespace, name), v, e) ↦
            let (status, reviewed, proven) =
              review_sound review_token audience config token namespace name w v e in
            let (authenticated, for_audience, account) =
              proven_account_sound audience status namespace name proven in
            let (tenant, claimed, is_tenant) =
              tenant_caller_sound config namespace name caller (ground (arith, h, bearer, e)) in
            record {
              token = token;
              status = status;
              namespace = namespace;
              name = name;
              tenant = tenant;
              bearer = bearer_token_sound header token bearer;
              reviewed = reviewed ∙ ap (λ x. (ok status, x)) (ground (arith, h, bearer, e));
              authenticated = authenticated;
              for_audience = for_audience;
              account = account_of_sound status.username namespace name account;
              claimed = claimed;
              is_tenant = is_tenant;
            }
      ]
    ]

-- A request that carries the Authorization header sees a session only if its owner is the very tenant that claims the
-- service account of the request's own token: a bearer token that a review proved for this audience.
pub resolve-sees :
    {W : Type 0} (review_token : Text → List Text → Action W ApiError ReviewStatus)
    (audience : Text) (config : Option Config) (header : List Text) (caller : Caller) (owner : Text)
    (w w' : W)
    → resolve review_token audience config (some header) w ≡ (ok caller, w')
    → sees caller owner ≡ true
    → (b : Backed review_token audience config header caller w w') × (b.tenant.name ≡ owner)
unfolding sees
resolve-sees review_token audience config header caller owner w w' h seen =
    let b = resolve-Backed review_token audience config header caller w w' h in
    (b, text_eq_sound b.tenant.name owner (subst (λ c. own c owner ≡ true) b.is_tenant seen))
  where
    own : Caller → Text → Bool
    own c o = c.operator || (elim c.tenant [ none ↦ false | some t ↦ text_eq t.name o ])
