-- ===== src/Session/Types.antt =====
-- control-plane/internal/session/{session,codex,minimax_code}.go: states, workload types, phases.
-- A Go string type is a constructor for each constant, and `other` for the texts that are none.
use session_platform.Prelude.{
  ◌≡◌, refl, Bool, true, false, Text, text_eq, text_eq_refl, text_eq_sound, Result, ok, err, arith,
  ap, if◌then◌else◌,
}
use session_platform.Session.Errors.{Error, sentinel, invalid_input}

pub data State : Type 0 where
  active idle snapshot : State
  other : Text → State

pub state_valid : State → Bool
state_valid active = true
state_valid idle = true
state_valid snapshot = true
state_valid (State.other s) = false

unfoldable pub state_eq : State → State → Bool
state_eq active active = true
state_eq idle idle = true
state_eq snapshot snapshot = true
state_eq (State.other s) (State.other t) = text_eq s t
state_eq _ _ = false

pub data Phase : Type 0 where
  preparing committing : Phase
  unknown : Text → Phase

unfoldable pub phase_eq : Phase → Phase → Bool
phase_eq preparing preparing = true
phase_eq committing committing = true
phase_eq (unknown s) (unknown t) = text_eq s t
phase_eq _ _ = false

-- `unspecified` is the empty text, `codex` the name that codex-chat had before the split.
pub data WorkloadType : Type 0 where
  unspecified shell claude_code approval_gated minimax_code codex_chat codex_task codex :
      WorkloadType
  other : Text → WorkloadType

unfoldable pub workload_eq : WorkloadType → WorkloadType → Bool
workload_eq unspecified unspecified = true
workload_eq shell shell = true
workload_eq claude_code claude_code = true
workload_eq approval_gated approval_gated = true
workload_eq minimax_code minimax_code = true
workload_eq codex_chat codex_chat = true
workload_eq codex_task codex_task = true
workload_eq codex codex = true
workload_eq (WorkloadType.other s) (WorkloadType.other t) = text_eq s t
workload_eq _ _ = false

unfoldable pub workload_valid : WorkloadType → Bool
workload_valid shell = true
workload_valid claude_code = true
workload_valid approval_gated = true
workload_valid minimax_code = true
workload_valid codex_chat = true
workload_valid codex_task = true
workload_valid unspecified = false
workload_valid codex = false
workload_valid (WorkloadType.other s) = false

abbrev is_unspecified : WorkloadType → Bool
is_unspecified unspecified = true
is_unspecified _ = false

unfoldable pub normalize_workload_type : WorkloadType → Result Error WorkloadType
unfolding workload_valid
normalize_workload_type w =
    if is_unspecified w
    then ok shell
    else if workload_valid w
    then ok w
    else err (sentinel invalid_input)

abbrev is_legacy_codex : WorkloadType → Bool
is_legacy_codex codex = true
is_legacy_codex _ = false

unfoldable pub normalize_stored_workload_type : WorkloadType → Result Error WorkloadType
unfolding normalize_workload_type
normalize_stored_workload_type w =
    if is_legacy_codex w then ok codex_chat else normalize_workload_type w

unfoldable pub is_codex : WorkloadType → Bool
is_codex codex_chat = true
is_codex codex_task = true
is_codex _ = false

unfoldable pub has_approval_gate : WorkloadType → Bool
has_approval_gate approval_gated = true
has_approval_gate minimax_code = true
has_approval_gate _ = false

unfoldable pub queues_prompts : WorkloadType → Bool
unfolding is_codex
queues_prompts claude_code = true
queues_prompts approval_gated = true
queues_prompts minimax_code = true
queues_prompts w = is_codex w

pub workload_eq_sound : (v w : WorkloadType) → workload_eq v w ≡ true → v ≡ w
unfolding workload_eq
workload_eq_sound unspecified unspecified h = refl
workload_eq_sound (WorkloadType.other s) (WorkloadType.other t) h =
    ap WorkloadType.other (text_eq_sound s t h)
workload_eq_sound v w h = ground arith

pub workload_eq_refl : (w : WorkloadType) → workload_eq w w ≡ true
unfolding workload_eq
workload_eq_refl (WorkloadType.other s) = text_eq_refl s
workload_eq_refl _ = refl

-- A stored record's type is read as one of the six valid types, or refused, and reading the
-- result again changes nothing; so a legacy or untyped record settles at its first rewrite.
pub normalize_stored_workload_type_lem :
    (w : WorkloadType) {v : WorkloadType}
    → normalize_stored_workload_type w ≡ ok v
    → (workload_valid v ≡ true)
      × (normalize_stored_workload_type v ≡ ok v)
      × (normalize_workload_type v ≡ ok v)
unfolding normalize_stored_workload_type
normalize_stored_workload_type_lem w h = ground arith
