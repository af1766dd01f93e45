-- ===== src/Tenancy/Resolver.antt =====
-- control-plane/internal/tenancy/resolver.go: from a request's Authorization header to its caller. The TokenReview
-- API is a parameter.
use session_platform.Prelude.{
  Bool, false, not, ◌||◌, ◌==◌, any, Option, none, some, List, [], ◌∷◌, ◌++◌, Text, codes, text_eq,
  is_empty, Result, ok, err, Action, pure, raise, lift, ◌>>=◌, if◌then◌else◌,
}
use session_platform.Session.Errors.{
  Error, ApiError, sentinel, api, wrapped, joined, failed, unauthenticated, forbidden,
}
use session_platform.Session.Models.{trim_space}
use session_platform.Kubernetes.{respond}
use session_platform.Tenancy.Callers.{Config, for_service_account, Caller, operator_caller}

abbrev pub default_audience : Text
default_audience = codes "session-platform"

abbrev pub service_account_prefix : Text
service_account_prefix = codes "system:serviceaccount:"

abbrev pub bearer_prefix : Text
bearer_prefix = codes "Bearer "

-- The status of a TokenReview.
pub record ReviewStatus : Type 0 where
  pub authenticated : Bool
  pub audiences : List Text
  pub username : Text

-- `strings.CutPrefix`, none where the prefix is missing.
unfoldable pub cut_prefix : Text → Text → Option Text
cut_prefix [] s = some s
cut_prefix (p ∷ ps) [] = none
cut_prefix (p ∷ ps) (c ∷ s) = let rest = cut_prefix ps s in if p == c then rest else none

-- `strings.Cut` at the first colon, none where there is no colon.
unfoldable pub cut_colon : Text → Option (Text × Text)
cut_colon [] = none
cut_colon (c ∷ s) =
    let rest = cut_colon s in
    if c == b':' then some ([], s) else elim rest [ none ↦ none | some (a, b) ↦ some (c ∷ a, b) ]

-- `strings.Join(header, "")`.
unfoldable pub join : List Text → Text
join [] = []
join (t ∷ ts) = t ++ join ts

unfoldable pub effective_audience : Text → Text
effective_audience audience = if is_empty (trim_space audience) then default_audience else audience

-- The namespace and the name of the account that a review proves.
unfoldable pub account_of : Text → Result Error (Text × Text)
account_of username = elim (cut_prefix service_account_prefix username) [
  | none ↦ err (sentinel unauthenticated)
  | some rest ↦ elim (cut_colon rest) [
    | none ↦ err (sentinel unauthenticated)
    | some (namespace, name) ↦
        if is_empty namespace || (is_empty name || any (λ c. c == b':') name)
        then err (sentinel unauthenticated)
        else ok (namespace, name)
  ]
]

unfoldable pub proven_account : Text → ReviewStatus → Result Error (Text × Text)
proven_account audience status =
    if not status.authenticated || not (any (text_eq audience) status.audiences)
    then err (sentinel unauthenticated)
    else account_of status.username

unfoldable pub tenant_caller : Option Config → Text × Text → Result Error Caller
tenant_caller config account = elim (for_service_account config account.0 account.1) [
  | none ↦ err (joined (wrapped (sentinel forbidden)) (failed 6))
  | some t ↦ ok (record { operator = false; tenant = some t })
]

-- The token of a bearer header.
unfoldable pub bearer_token : List Text → Result Error Text
bearer_token header = elim (cut_prefix bearer_prefix (join header)) [
  | none ↦ err (sentinel unauthenticated)
  | some token ↦ if is_empty (trim_space token) then err (sentinel unauthenticated) else ok token
]

module _ {W : Type 0} (review_token : Text → List Text → Action W ApiError ReviewStatus)
    (audience : Text) (config : Option Config) where
  unfoldable pub review : Text → Action W Error (Text × Text)
  review token =
      respond (review_token token (audience ∷ [])) (λ status. lift (proven_account audience status))
        λ e. raise (wrapped (api e))

  -- The argument is none for a request without the header.
  unfoldable pub resolve : Option (List Text) → Action W Error Caller
  resolve none = pure operator_caller
  resolve (some header) = do
    token ← lift (bearer_token header)
    account ← review token
    lift (tenant_caller config account)
