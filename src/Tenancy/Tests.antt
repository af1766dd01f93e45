-- ===== src/Tenancy/Tests.antt =====
-- control-plane/internal/tenancy/resolver.go: a request of a concrete tenant.
use session_platform.Prelude.{
  ℕ, ◌≡◌, refl, true, false, Option, some, List, [], ◌∷◌, Text, codes, text_eq, lookup, ok, Action,
}
use session_platform.Session.Errors.{ApiError}
use session_platform.Session.Models.{trim_space}
use session_platform.Tenancy.Callers.{Tenant, Config, for_service_account, Caller, sees}
use session_platform.Tenancy.Resolver.{
  ReviewStatus, cut_prefix, cut_colon, join, account_of, proven_account, tenant_caller,
  bearer_token, review, resolve,
}
use session_platform.Prelude.{insert, any, Result}
use session_platform.Session.Errors.{Error}
use session_platform.Tenancy.Parse.{
  parse, add_tenants, add_tenant, tenant_name, claim_accounts, account_name, check_types,
}
use session_platform.Tenancy.Claims.{parse-Owned}
use session_platform.Tenancy.Proven.{Backed, resolve-Backed, resolve-sees}

abbrev team : Tenant
team = record { name = codes "team"; service_accounts = codes "ns/bot" ∷ []; workload_types = [] }

abbrev config : Option Config
config = some (record {
  tenants = team ∷ [];
  by_name = (codes "team", team) ∷ [];
  by_account = (codes "ns/bot", team) ∷ [];
})

abbrev reviewer : Text → List Text → Action ℕ ApiError ReviewStatus
reviewer token audiences w = (
  ok (record {
    authenticated = true;
    audiences = audiences;
    username = codes "system:serviceaccount:ns:bot";
  }),
  w,
)

abbrev header : List Text
header = codes "Bearer abc" ∷ []

abbrev team_caller : Caller
team_caller = record { operator = false; tenant = some team }

resolve_run : resolve reviewer (codes "a") config (some header) 3 ≡ (ok team_caller, 3)
unfolding resolve bearer_token join cut_prefix trim_space review proven_account account_of cut_colon
    tenant_caller for_service_account lookup text_eq
resolve_run = refl

resolve-Backed_example : Backed reviewer (codes "a") config header team_caller 3 3
resolve-Backed_example =
    resolve-Backed reviewer (codes "a") config header team_caller 3 3 resolve_run

sees_run : sees team_caller (codes "team") ≡ true
unfolding sees text_eq
sees_run = refl

resolve-sees_example :
    (b : Backed reviewer (codes "a") config header team_caller 3 3) × (b.tenant.name ≡ codes "team")
resolve-sees_example =
    resolve-sees reviewer (codes "a") config header team_caller (codes "team") 3 3 resolve_run
      sees_run

abbrev decoded : Text → Result Error (List Tenant)
decoded raw = ok (team ∷ [])

abbrev parsed : Config
parsed = record {
  tenants = team ∷ [];
  by_name = (codes "team", team) ∷ [];
  by_account = (codes "ns/bot", team) ∷ [];
}

parse_run : parse decoded (codes "x") ≡ ok parsed
unfolding parse trim_space add_tenants add_tenant tenant_name lookup claim_accounts account_name
    insert check_types
parse_run = refl

lookup_run : lookup (codes "ns/bot") parsed.by_account ≡ some team
unfolding lookup text_eq
lookup_run = refl

parse-Owned_example : any (text_eq (codes "ns/bot")) team.service_accounts ≡ true
parse-Owned_example =
    parse-Owned decoded (codes "x") parsed (codes "ns/bot") team parse_run lookup_run
