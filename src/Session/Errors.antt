-- ===== src/Session/Errors.antt =====
-- control-plane/internal/session/session.go: the domain errors. Message texts are not modelled:
-- `wrapped` is `fmt.Errorf` with `%w`, `joined` is `errors.Join` of two errors, `api` is an error of
-- the Kubernetes client, and `failed n` is any other error value.
use session_platform.Prelude.{ℕ, Bool, false, ◌||◌, ◌==◌}

pub data Sentinel : Type 0 where
  not_found invalid_state conflict invalid_input request_body_too_large prompt_too_large queue_full
        output_full checkpoint_disabled workload_busy plugin_refresh_failed auth_pool_exhausted
        unauthenticated forbidden :
      Sentinel

-- What `apierrors.IsNotFound`, `IsAlreadyExists` and `IsConflict` tell apart.
pub data ApiError : Type 0 where
  missing already_exists version_conflict : ApiError
  refused : ℕ → ApiError

pub data Error : Type 0 where
  sentinel : Sentinel → Error
  api : ApiError → Error
  canceled : Error
  -- The model's own: the rounds of a retry that the code leaves unbounded ran out.
  unfinished : Error
  failed : ℕ → Error
  wrapped : Error → Error
  joined : Error → Error → Error

abbrev pub index : Sentinel → ℕ
index not_found = 0
index invalid_state = 1
index conflict = 2
index invalid_input = 3
index request_body_too_large = 4
index prompt_too_large = 5
index queue_full = 6
index output_full = 7
index checkpoint_disabled = 8
index workload_busy = 9
index plugin_refresh_failed = 10
index auth_pool_exhausted = 11
index unauthenticated = 12
index forbidden = 13

-- `errors.Is(e, target)`.
unfoldable pub is : Sentinel → Error → Bool
is target (sentinel s) = index target == index s
is target (api a) = false
is target canceled = false
is target unfinished = false
is target (failed n) = false
is target (wrapped e) = is target e
is target (joined a b) = is target a || is target b
