-- ===== src/Session/Mirrors.antt =====
-- control-plane/internal/session/workload_catalog.go: the catalog against the functions that decide
-- what a create request may carry.
use session_platform.Prelude.{
  ◌≡◌, refl, Bool, true, false, List, [], ◌∷◌, arith, Text, any, All, Result, ok, err,
}
use session_platform.Session.Types.{WorkloadType, workload_eq, workload_valid}
use session_platform.Session.Models.{
  model_name, trim_space, normalize_model, dispatch_model, concrete_model, no_model,
}
use session_platform.Session.Plugins.{takes_plugins}
use session_platform.Session.Catalog.{WorkloadTypeInfo, workload_types}

abbrev is_ok : {A E : Type 0} → Result E A → Bool
is_ok (ok a) = true
is_ok (err e) = false

abbrev pub listed : WorkloadType → List WorkloadTypeInfo → Bool
listed w = any (λ info. workload_eq info.type w)

pub record Mirrors (info : WorkloadTypeInfo) : Type 0 where
  pub model :
      (m : Text)
      → model_name (trim_space m) ≡ true
      → is_ok (normalize_model info.type m) ≡ info.takes_model
  pub plugins : takes_plugins info.type ≡ info.takes_plugins

-- The catalog lists exactly the valid workload types.
pub workload_types_complete : (w : WorkloadType) → listed w workload_types ≡ workload_valid w
unfolding workload_types workload_eq workload_valid
workload_types_complete w = ground arith

concrete-is_ok : (m : Text) → model_name m ≡ true → is_ok (concrete_model m) ≡ true
unfolding model_name
concrete-is_ok [] h = cc
concrete-is_ok (c ∷ s) h = ground arith

no_model-is_ok : (m : Text) → model_name m ≡ true → is_ok (no_model m) ≡ false
unfolding model_name
no_model-is_ok [] h = cc
no_model-is_ok (c ∷ s) h = refl

-- Every entry's flags say what a create request of its type may carry: a valid model name is
-- accepted exactly where the entry takes a model, and plugins exactly where it takes plugins.
pub workload_types-Mirrors : All Mirrors workload_types
unfolding workload_types normalize_model dispatch_model takes_plugins
workload_types-Mirrors = (
  record { model = λ m h. no_model-is_ok (trim_space m) h; plugins = refl },
  (
    record { model = λ m h. concrete-is_ok (trim_space m) h; plugins = refl },
    (
      record { model = λ m h. concrete-is_ok (trim_space m) h; plugins = refl },
      (
        record { model = λ m h. concrete-is_ok (trim_space m) h; plugins = refl },
        (
          record { model = λ m h. concrete-is_ok (trim_space m) h; plugins = refl },
          (record { model = λ m h. concrete-is_ok (trim_space m) h; plugins = refl }, tt),
        ),
      ),
    ),
  ),
)
