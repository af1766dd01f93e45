-- ===== src/Tenancy/Parse.antt =====
-- control-plane/internal/tenancy/tenancy.go: `Parse`. Reading the JSON document is a parameter; the messages of the
-- errors are numbers.
use session_platform.Prelude.{
  ℕ, ◌+◌, Bool, true, false, not, ◌&&◌, ◌||◌, ◌==◌, leb, any, all, length, Option, none, some, List,
  [], ◌∷◌, ◌++◌, Text, is_empty, lookup, insert, Result, ok, err, and_then, if◌then◌else◌,
}
use session_platform.Session.Errors.{Error, failed, wrapped}
use session_platform.Session.Types.{WorkloadType, workload_eq, workload_valid}
use session_platform.Session.Models.{trim_space}
use session_platform.Tenancy.Callers.{Tenant, Config, any_workload_type}

-- `[a-z0-9]`.
abbrev is_lower_alnum : ℕ → Bool
is_lower_alnum c = (leb b'a' c && leb c b'z') || (leb b'0' c && leb c b'9')

-- `[a-z0-9-]`, and with a dot.
abbrev is_label_char : ℕ → Bool
is_label_char c = is_lower_alnum c || (c == b'-')

abbrev is_name_char : ℕ → Bool
is_name_char c = is_label_char c || (c == b'.')

abbrev ends_alnum : Text → Bool
ends_alnum [] = false
ends_alnum (c ∷ []) = is_lower_alnum c
ends_alnum (c ∷ d ∷ s) = ends_alnum (d ∷ s)

-- `[a-z0-9](p{0,n}[a-z0-9])?`, to the end of the text.
abbrev dns_name : (ℕ → Bool) → ℕ → Text → Bool
dns_name p n [] = false
dns_name p n (c ∷ s) =
    is_lower_alnum c && (is_empty s || (all p s && (ends_alnum s && leb (length s) (n + 1))))

unfoldable pub tenant_name : Text → Bool
tenant_name s = dns_name is_label_char 61 s

-- The texts around the first slash.
abbrev cut_slash : Text → Option (Text × Text)
cut_slash [] = none
cut_slash (c ∷ s) =
    let rest = cut_slash s in
    if c == b'/' then some ([], s) else elim rest [ none ↦ none | some (a, b) ↦ some (c ∷ a, b) ]

unfoldable pub account_name : Text → Bool
account_name s = elim (cut_slash s) [
  | none ↦ false
  | some (namespace, name) ↦ dns_name is_label_char 61 namespace && dns_name is_name_char 251 name
]

-- The accounts of one tenant, entered one by one.
unfoldable pub claim_accounts :
    Tenant → List Text → List (Text × Tenant) → Result Error (List (Text × Tenant))
claim_accounts t [] m = ok m
claim_accounts t (account ∷ accounts) m =
    if not (account_name account) then err (failed 12) else elim (lookup account m) [
      | some owner ↦ err (failed 13)
      | none ↦ claim_accounts t accounts (insert account t m)
    ]

-- The first argument holds the types seen.
unfoldable pub check_types : List WorkloadType → List WorkloadType → Result Error Unit
check_types seen [] = ok tt
check_types seen (w ∷ ws) =
    let rest = check_types (w ∷ seen) ws in
    let skip = check_types seen ws in
    if workload_eq w any_workload_type
    then skip
    else if not (workload_valid w)
    then err (failed 15)
    else if any (workload_eq w) seen
    then err (failed 16)
    else rest

abbrev known_name : Text → Config → Bool
known_name name cfg = elim (lookup name cfg.by_name) [ none ↦ false | some t ↦ true ]

unfoldable pub add_tenant : Config → Tenant → Result Error Config
add_tenant cfg t =
    if not (tenant_name t.name)
    then err (failed 9)
    else if known_name t.name cfg
    then err (failed 10)
    else if length t.service_accounts == 0
    then err (failed 11)
    else and_then (claim_accounts t t.service_accounts cfg.by_account) λ accounts.
      if any (workload_eq any_workload_type) t.workload_types && not (length t.workload_types == 1)
      then err (failed 14)
      else and_then (check_types [] t.workload_types) λ checked. ok (record {
        tenants = cfg.tenants ++ t ∷ [];
        by_name = insert t.name t cfg.by_name;
        by_account = accounts;
      })

unfoldable pub add_tenants : Config → List Tenant → Result Error Config
add_tenants cfg [] = ok cfg
add_tenants cfg (t ∷ ts) = and_then (add_tenant cfg t) λ next. add_tenants next ts

abbrev pub no_tenants : Config
no_tenants = record { tenants = []; by_name = []; by_account = [] }

-- A failed decoding is reported as it is, wrapped.
unfoldable pub parse : (Text → Result Error (List Tenant)) → Text → Result Error Config
parse decode_file raw =
    if is_empty (trim_space raw) then ok no_tenants else elim (decode_file raw) [
      | err e ↦ err (wrapped e)
      | ok tenants ↦ add_tenants no_tenants tenants
    ]
