-- ===== src/Provisioning/Configured.antt =====
-- control-plane/internal/adapter/k8s/client_orchestrator.go: what every constructed orchestrator satisfies.
use session_platform.Prelude.{
  ℕ, zero, suc, ◌<◌, ◌≡◌, refl, Bool, true, false, Option, none, some, List, [], ◌∷◌, Text,
  is_empty, All, if◌then◌else◌, arith,
}
use session_platform.Session.Types.{WorkloadType, workload_eq}
use session_platform.Session.Models.{trim_space}
use session_platform.Provisioning.{ClientOrchestrator}
use session_platform.Provisioning.Options.{
  ClientOption, with_image, with_workload_image, with_claude_credentials_secret,
  with_claude_config_config_map, with_approval_gateway_url, with_shell, with_agent_port,
  with_codex_credentials_secret, with_codex_config_config_map, with_codex_plugins,
  with_codex_task_credentials_secret, with_codex_task_config_config_map, with_codex_task_plugins,
  with_mini_max_credentials_secret, with_mini_max_config_config_map, with_repo_access,
  with_drop_url, with_shared_volume, with_claude_code_auth_mode, or_kept, assigned, positive,
  applied, default_orchestrator, with_options, new_client_orchestrator,
}

abbrev pub IsNamed : Text → Type 0
IsNamed name = is_empty name ≡ false

abbrev pub IsNamedIfGiven : Option Text → Type 0
IsNamedIfGiven none = Unit
IsNamedIfGiven (some image) = IsNamed image

-- The names that a pod refers to whatever its settings are.
unfoldable pub required : ClientOrchestrator → List Text
required o =
    o.image ∷ o.claude_credentials_secret ∷ o.claude_config_config_map
    ∷ o.mini_max_credentials_secret ∷ o.mini_max_config_config_map
    ∷ o.codex_chat_profile.credentials_secret ∷ o.codex_chat_profile.config_config_map
    ∷ o.codex_chat_profile.plugins ∷ o.codex_task.credentials_secret
    ∷ o.codex_task.config_config_map ∷ o.codex_task.plugins ∷ []

pub record IsConfigured (o : ClientOrchestrator) : Type 0 where
  pub names : All IsNamed (required o)
  pub images : (workload : WorkloadType) → IsNamedIfGiven (o.workload_images workload)
  pub port : 0 < o.agent_port

or_kept-IsNamed : (name kept : Text) → IsNamed kept → IsNamed (or_kept name kept)
unfolding or_kept
or_kept-IsNamed [] kept h = h
or_kept-IsNamed (c ∷ name) kept h = refl

positive_lem : (n kept : ℕ) → 0 < kept → 0 < positive n kept
positive_lem zero kept h = h
positive_lem (suc n) kept h = omega arith

assigned-IsNamed :
    (images : WorkloadType → Option Text) (workload : WorkloadType) (image : Text)
    → ((asked : WorkloadType) → IsNamedIfGiven (images asked))
    → (asked : WorkloadType) → IsNamedIfGiven (assigned images workload image asked)
assigned-IsNamed images workload [] h asked = h asked
assigned-IsNamed images workload (c ∷ image) h asked = by_type (workload_eq workload asked)
  where
    by_type : (b : Bool) → IsNamedIfGiven (if b then some (c ∷ image) else images asked)
    by_type true = refl
    by_type false = h asked

kept_at : ℕ → Text → List Text → List Text
kept_at n name [] = []
kept_at zero name (x ∷ xs) = or_kept name x ∷ xs
kept_at (suc n) name (x ∷ xs) = x ∷ kept_at n name xs

rename : (n : ℕ) (name : Text) (xs : List Text) → All IsNamed xs → All IsNamed (kept_at n name xs)
unfolding kept_at
rename n name [] h = tt
rename zero name (x ∷ xs) h = (or_kept-IsNamed name x h.0, h.1)
rename (suc n) name (x ∷ xs) h = (h.0, rename n name xs h.1)

applied-IsConfigured :
    (opt : ClientOption) (o : ClientOrchestrator) → IsConfigured o → IsConfigured (applied opt o)
unfolding applied required kept_at
applied-IsConfigured (with_workload_image workload image) o h = record {
  names = h.names;
  images = assigned-IsNamed o.workload_images workload image h.images;
  port = h.port;
}
applied-IsConfigured (with_agent_port port) o h = record {
  names = h.names;
  images = h.images;
  port = positive_lem port o.agent_port h.port;
}
applied-IsConfigured (with_image image) o h = record {
  names = rename 0 image (required o) h.names;
  images = h.images;
  port = h.port;
}
applied-IsConfigured (with_claude_credentials_secret name) o h = record {
  names = rename 1 (trim_space name) (required o) h.names;
  images = h.images;
  port = h.port;
}
applied-IsConfigured (with_claude_config_config_map name) o h = record {
  names = rename 2 (trim_space name) (required o) h.names;
  images = h.images;
  port = h.port;
}
applied-IsConfigured (with_codex_credentials_secret name) o h = record {
  names = rename 5 (trim_space name) (required o) h.names;
  images = h.images;
  port = h.port;
}
applied-IsConfigured (with_codex_config_config_map name) o h = record {
  names = rename 6 (trim_space name) (required o) h.names;
  images = h.images;
  port = h.port;
}
applied-IsConfigured (with_codex_plugins plugins) o h = record {
  names = rename 7 (trim_space plugins) (required o) h.names;
  images = h.images;
  port = h.port;
}
applied-IsConfigured (with_codex_task_credentials_secret name) o h = record {
  names = rename 8 (trim_space name) (required o) h.names;
  images = h.images;
  port = h.port;
}
applied-IsConfigured (with_codex_task_config_config_map name) o h = record {
  names = rename 9 (trim_space name) (required o) h.names;
  images = h.images;
  port = h.port;
}
applied-IsConfigured (with_codex_task_plugins plugins) o h = record {
  names = rename 10 (trim_space plugins) (required o) h.names;
  images = h.images;
  port = h.port;
}
applied-IsConfigured (with_mini_max_credentials_secret name) o h = record {
  names = rename 3 (trim_space name) (required o) h.names;
  images = h.images;
  port = h.port;
}
applied-IsConfigured (with_mini_max_config_config_map name) o h = record {
  names = rename 4 (trim_space name) (required o) h.names;
  images = h.images;
  port = h.port;
}
applied-IsConfigured (with_approval_gateway_url url) o h = record {
  names = h.names;
  images = h.images;
  port = h.port;
}
applied-IsConfigured (with_shell shell) o h = record {
  names = h.names;
  images = h.images;
  port = h.port;
}
applied-IsConfigured (with_repo_access url) o h = record {
  names = h.names;
  images = h.images;
  port = h.port;
}
applied-IsConfigured (with_drop_url url) o h = record {
  names = h.names;
  images = h.images;
  port = h.port;
}
applied-IsConfigured (with_shared_volume storage_class size) o h = record {
  names = h.names;
  images = h.images;
  port = h.port;
}
applied-IsConfigured (with_claude_code_auth_mode mode) o h = record {
  names = h.names;
  images = h.images;
  port = h.port;
}

with_options-IsConfigured :
    (opts : List ClientOption) (o : ClientOrchestrator)
    → IsConfigured o
    → IsConfigured (with_options opts o)
unfolding with_options
with_options-IsConfigured [] o h = h
with_options-IsConfigured (opt ∷ opts) o h =
    with_options-IsConfigured opts (applied opt o) (applied-IsConfigured opt o h)

-- Whatever the options are, blank values and repetitions included: the Secrets, ConfigMaps, plugins and the
-- image that pods refer to have non-empty names, an image that is given for a type is not empty, and the port
-- of the agent is not 0.
pub new_client_orchestrator-IsConfigured :
    (namespace : Text) (opts : List ClientOption)
    → IsConfigured (new_client_orchestrator namespace opts)
unfolding new_client_orchestrator default_orchestrator required
new_client_orchestrator-IsConfigured namespace opts =
    with_options-IsConfigured opts (default_orchestrator namespace) (record {
      names = (
        refl,
        (refl, (refl, (refl, (refl, (refl, (refl, (refl, (refl, (refl, (refl, tt)))))))))),
      );
      images = λ workload. tt;
      port = omega arith;
    })
