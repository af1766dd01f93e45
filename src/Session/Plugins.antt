-- ===== src/Session/Plugins.antt =====
-- control-plane/internal/session/session.go: the plugin selection of a session.
use session_platform.Prelude.{
  ℕ, Bool, true, false, not, ◌&&◌, ◌||◌, Option, none, some, List, [], ◌∷◌, ◌++◌, ◌==◌, leb, ltb,
  if◌then◌else◌, Text, text_eq, any, all, length, Result, ok, err,
}
use session_platform.Session.Errors.{Error, sentinel, invalid_input}
use session_platform.Session.Types.{WorkloadType, claude_code, minimax_code, codex_chat, codex_task}
use session_platform.Session.Models.{is_alnum}

abbrev pub max_session_plugins : ℕ
max_session_plugins = 16

-- `[A-Za-z0-9._-]`.
unfoldable pub is_plugin_char : ℕ → Bool
unfolding is_alnum
is_plugin_char c = is_alnum c || (c == b'.') || (c == b'_') || (c == b'-')

-- `pluginNamePattern`.
unfoldable pub plugin_name : Text → Bool
unfolding is_plugin_char is_alnum
plugin_name [] = false
plugin_name (c ∷ s) = is_alnum c && (all is_plugin_char s && leb (length s) 63)

unfoldable pub takes_plugins : WorkloadType → Bool
takes_plugins claude_code = true
takes_plugins minimax_code = true
takes_plugins codex_chat = true
takes_plugins codex_task = true
takes_plugins _ = false

-- The loop of `NormalizePlugins`: `seen` holds the names so far, `out` is their copy in order.
unfoldable pub collect_plugins : List Text → List Text → List Text → Result Error (List Text)
collect_plugins seen out [] = ok out
collect_plugins seen out (name ∷ names) =
    if not (plugin_name name) || any (text_eq name) seen
    then err (sentinel invalid_input)
    else collect_plugins (name ∷ seen) (out ++ name ∷ []) names

-- A nil list is `none`.
abbrev pub some_plugins : Result Error (List Text) → Result Error (Option (List Text))
some_plugins (ok out) = ok (some out)
some_plugins (err e) = err e

unfoldable pub normalize_plugins :
    WorkloadType → Option (List Text) → Result Error (Option (List Text))
unfolding takes_plugins collect_plugins
normalize_plugins workload none = ok none
normalize_plugins workload (some plugins) =
    if not (takes_plugins workload)
    then err (sentinel invalid_input)
    else if (length plugins == 0) || ltb max_session_plugins (length plugins)
    then err (sentinel invalid_input)
    else some_plugins (collect_plugins [] [] plugins)
