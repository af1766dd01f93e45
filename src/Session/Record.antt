-- ===== src/Session/Record.antt =====
-- control-plane/internal/session/session.go: the session aggregate. A time is its count of
-- nanoseconds; a nil slice of pods is the empty list.
use session_platform.Prelude.{ℕ, Option, List, [], ◌∷◌, if◌then◌else◌, Text, is_empty}
use session_platform.Session.Types.{State, WorkloadType, Phase}

pub record Checkpoint : Type 0 where
  pub ref : Text
  pub size_bytes : ℕ
  pub created_at : ℕ
  pub reclaimed : Text
  pub abort_token : Text

pub record SnapshotTransaction : Type 0 where
  pub generation : Text
  pub owner : Text
  pub source_pod : Text
  pub phase : Phase
  pub checkpoint : Option Checkpoint

pub record Session : Type 0 where
  pub id : Text
  pub workload_type : WorkloadType
  pub model : Text
  pub plugins : Option (List Text)
  pub reasoning_effort : Text
  pub tenant : Text
  pub name : Text
  pub state : State
  pub pod : Text
  pub auxiliary_pods : List Text
  pub created_at : ℕ
  pub last_access : ℕ
  pub checkpoint : Option Checkpoint
  pub snapshot_transaction : Option SnapshotTransaction

abbrev nonempty : List Text → List Text
nonempty [] = []
nonempty (p ∷ ps) = let rest = nonempty ps in if is_empty p then rest else p ∷ rest

unfoldable pub pods : Session → List Text
pods s = nonempty (s.pod ∷ s.auxiliary_pods)
