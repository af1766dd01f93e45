-- ===== src/Tenancy/Callers.antt =====
-- control-plane/internal/tenancy/tenancy.go: tenants, their configuration as it is looked up, and callers.
use session_platform.Prelude.{
  Bool, true, false, ◌||◌, any, Option, none, some, List, ◌++◌, Text, codes, text_eq, lookup,
}
use session_platform.Session.Types.{WorkloadType, workload_eq}

pub record Tenant : Type 0 where
  pub name : Text
  pub service_accounts : List Text
  pub workload_types : List WorkloadType

abbrev pub any_workload_type : WorkloadType
any_workload_type = WorkloadType.other (codes "*")

unfoldable pub allows : Tenant → WorkloadType → Bool
allows t w =
    any (workload_eq any_workload_type) t.workload_types || any (workload_eq w) t.workload_types

pub record Config : Type 0 where
  pub tenants : List Tenant
  pub by_name : List (Text × Tenant)
  pub by_account : List (Text × Tenant)

-- No configuration is `none`.
unfoldable pub tenant_named : Option Config → Text → Option Tenant
tenant_named none name = none
tenant_named (some cfg) name = lookup name cfg.by_name

unfoldable pub for_service_account : Option Config → Text → Text → Option Tenant
for_service_account none namespace name = none
for_service_account (some cfg) namespace name =
    lookup (namespace ++ codes "/" ++ name) cfg.by_account

pub record Caller : Type 0 where
  pub operator : Bool
  pub tenant : Option Tenant

abbrev pub operator_caller : Caller
operator_caller = record { operator = true; tenant = none }

unfoldable pub sees : Caller → Text → Bool
sees c owner = c.operator || (elim c.tenant [ none ↦ false | some t ↦ text_eq t.name owner ])
