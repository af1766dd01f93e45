-- ===== src/Session/Models.antt =====
-- control-plane/internal/session/session.go: the model setting of a session. `strings.TrimSpace` and
-- the character classes of the regular expression are written out over code points.
use mathlib.Core.List.{reverse}
use session_platform.Prelude.{
  ℕ, Bool, false, ◌&&◌, ◌||◌, [], ◌∷◌, ◌==◌, leb, if◌then◌else◌, Text, codes, is_empty, all, length,
  Result, ok, err,
}
use session_platform.Session.Errors.{Error, sentinel, invalid_input}
use session_platform.Session.Types.{
  WorkloadType, unspecified, shell, claude_code, approval_gated, minimax_code, codex_chat,
  codex_task, codex,
}

-- `unicode.IsSpace`.
unfoldable pub is_space : ℕ → Bool
is_space c =
    (leb 9 c && leb c 13)
    || (c == 0x20)
    || (c == 0x85)
    || (c == 0xa0)
    || (c == 0x1680)
    || (leb 0x2000 c && leb c 0x200a)
    || (c == 0x2028)
    || (c == 0x2029)
    || (c == 0x202f)
    || (c == 0x205f)
    || (c == 0x3000)

unfoldable pub trim_left : Text → Text
unfolding is_space
trim_left [] = []
trim_left (c ∷ s) = if is_space c then trim_left s else c ∷ s

unfoldable pub trim_space : Text → Text
unfolding trim_left
trim_space s = reverse (trim_left (reverse (trim_left s)))

unfoldable pub is_alnum : ℕ → Bool
is_alnum c = (leb b'A' c && leb c b'Z') || (leb b'a' c && leb c b'z') || (leb b'0' c && leb c b'9')

-- `[A-Za-z0-9._:/-]`.
unfoldable pub is_model_char : ℕ → Bool
unfolding is_alnum
is_model_char c =
    is_alnum c || (c == b'.') || (c == b'_') || (c == b':') || (c == b'/') || (c == b'-')

-- `[A-Za-z0-9][A-Za-z0-9._:/-]{0,n}`, to the end of the text.
unfoldable pub model_tail : ℕ → Text → Bool
unfolding is_alnum is_model_char
model_tail n [] = false
model_tail n (c ∷ s) = is_alnum c && (all is_model_char s && leb (length s) n)

-- `modelNamePattern`.
unfoldable pub model_name : Text → Bool
unfolding model_tail
model_name [] = false
model_name (c ∷ s) = if c == b'~' then model_tail 126 s else model_tail 127 (c ∷ s)

abbrev pub platform_default_model : Text
platform_default_model = codes "platform-default"

abbrev pub concrete_model : Text → Result Error Text
concrete_model model =
    if is_empty model
    then ok platform_default_model
    else if model_name model
    then ok model
    else err (sentinel invalid_input)

abbrev pub no_model : Text → Result Error Text
no_model model = if is_empty model then ok [] else err (sentinel invalid_input)

-- The switch of `NormalizeModel`, on the trimmed setting.
unfoldable pub dispatch_model : WorkloadType → Text → Result Error Text
unfolding model_name
dispatch_model shell model = no_model model
dispatch_model claude_code model = concrete_model model
dispatch_model approval_gated model = concrete_model model
dispatch_model minimax_code model = concrete_model model
dispatch_model codex_chat model = concrete_model model
dispatch_model codex_task model = concrete_model model
dispatch_model unspecified model = err (sentinel invalid_input)
dispatch_model codex model = err (sentinel invalid_input)
dispatch_model (WorkloadType.other s) model = err (sentinel invalid_input)

unfoldable pub normalize_model : WorkloadType → Text → Result Error Text
unfolding dispatch_model trim_space
normalize_model workload model = dispatch_model workload (trim_space model)
