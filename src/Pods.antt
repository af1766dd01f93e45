-- ===== src/Pods.antt =====
-- control-plane/internal/adapter/k8s/orchestrator.go: pod references, pod sets and workload settings.
use session_platform.Prelude.{ℕ, Option, List, [], ◌∷◌, Text, is_empty, if◌then◌else◌, map}
use session_platform.Session.Types.{WorkloadType}

pub record PodRef : Type 0 where
  pub name : Text
  pub namespace : Text
  pub ip : Text

-- A reference that is rebuilt from a stored name.
abbrev pub named : Text → PodRef
named name = record { name = name; namespace = []; ip = [] }

pub record SessionPods : Type 0 where
  pub workload : PodRef
  pub auxiliary : List PodRef

abbrev set_refs : List PodRef → List PodRef
set_refs [] = []
set_refs (r ∷ rs) = let rest = set_refs rs in if is_empty r.name then rest else r ∷ rest

unfoldable pub all_pods : SessionPods → List PodRef
all_pods s = set_refs (s.workload ∷ s.auxiliary)

unfoldable pub names : SessionPods → List Text
names s = map (λ (r : PodRef). r.name) s.auxiliary

pub record WorkloadSpec : Type 0 where
  pub type : WorkloadType
  pub model : Text
  pub plugins : Option (List Text)
  pub reasoning_effort : Text
  pub auth_slot : Option ℕ
