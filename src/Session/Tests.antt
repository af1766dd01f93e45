-- ===== src/Session/Tests.antt =====
-- control-plane/internal/session: the settings of concrete sessions.
use session_platform.Prelude.{◌≡◌, refl, ◌↔◌, some, List, [], ◌∷◌, Text, codes, ok}
use session_platform.Session.Types.{
  normalize_stored_workload_type, codex, codex_chat, codex_task, claude_code,
}
use session_platform.Session.Models.{normalize_model}
use session_platform.Session.Plugins.{normalize_plugins}
use session_platform.Session.Idempotence.{normalize_model_idem}
use session_platform.Session.Selection.{IsSelection, normalize_plugins_iff}

legacy_run : normalize_stored_workload_type codex ≡ ok codex_chat
unfolding normalize_stored_workload_type
legacy_run = refl

model_run : normalize_model claude_code (codes " opus-4.1 ") ≡ ok (codes "opus-4.1")
unfolding normalize_model
model_run = refl

normalize_model_idem_example :
    normalize_model claude_code (codes "opus-4.1") ≡ ok (codes "opus-4.1")
normalize_model_idem_example = normalize_model_idem claude_code (codes " opus-4.1 ") model_run

abbrev selection : List Text
selection = codes "k3s" ∷ codes "git.hub" ∷ []

normalize_plugins_iff_example :
    (normalize_plugins codex_task (some selection) ≡ ok (some selection))
    ↔ (IsSelection codex_task selection × (some selection ≡ some selection))
normalize_plugins_iff_example = normalize_plugins_iff codex_task selection (some selection)
