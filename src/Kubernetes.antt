-- ===== src/Kubernetes.antt =====
-- What the control plane uses of the Kubernetes API through client-go: ConfigMaps and Leases with
-- the fields that the code reads or writes, and the calls as a parameter over an abstract world.
-- A Go map is an association list. A time is a count of nanoseconds.
pub mod Versions
use session_platform.Prelude.{
  ℕ, ◌≡◌, Bool, true, false, Option, none, some, List, Text, Result, ok, err, Action, ◌*◌, ◌^◌,
}
use session_platform.Session.Errors.{
  ApiError, missing, already_exists, version_conflict, refused, Error,
}

pub record ConfigMap : Type 0 where
  pub name : Text
  pub labels : List (Text × Text)
  pub annotations : List (Text × Text)
  pub contents : List (Text × Text)
  pub resource_version : ℕ

pub record Lease : Type 0 where
  pub name : Text
  pub labels : List (Text × Text)
  pub annotations : List (Text × Text)
  pub creation_timestamp : ℕ
  pub holder_identity : Option Text
  pub lease_duration_seconds : Option ℕ
  pub acquire_time : Option ℕ
  pub renew_time : Option ℕ
  pub resource_version : ℕ

-- A write carries the resource version that was read. `now` is the injected clock and `ctx_err` is
-- `ctx.Err()`: what happened up to a world decides both.
pub record Api (W : Type 0) : Type 0 where
  pub get_config_map : Text → Action W ApiError ConfigMap
  pub list_config_maps : Text → Text → Action W ApiError (List ConfigMap)
  pub create_config_map : ConfigMap → Action W ApiError ConfigMap
  pub update_config_map : ConfigMap → Action W ApiError ConfigMap
  pub delete_config_map : Text → ℕ → Action W ApiError Unit
  pub get_lease : Text → Action W ApiError Lease
  pub list_leases : Text → Text → Action W ApiError (List Lease)
  pub create_lease : Lease → Action W ApiError Lease
  pub update_lease : Lease → Action W ApiError Lease
  pub delete_lease : Text → ℕ → Action W ApiError Unit
  pub now : W → ℕ
  pub ctx_err : W → Option Error

abbrev pub is_not_found : ApiError → Bool
is_not_found missing = true
is_not_found _ = false

abbrev pub is_already_exists : ApiError → Bool
is_already_exists already_exists = true
is_already_exists _ = false

abbrev pub is_conflict : ApiError → Bool
is_conflict version_conflict = true
is_conflict _ = false

abbrev pub second : ℕ
second = 1_000_000_000

-- `if r, err := call(); err != nil { failed } else { done }`.
module _ {W A B : Type 0} where
  abbrev pub dispatch :
      Result ApiError A → (A → Action W Error B) → (ApiError → Action W Error B) → Action W Error B
  dispatch (ok a) done fault w = done a w
  dispatch (err e) done fault w = fault e w

  abbrev pub respond :
      Action W ApiError A
      → (A → Action W Error B)
      → (ApiError → Action W Error B)
      → Action W Error B
  respond m done fault w = let (r, w') = m w in dispatch r done fault w'
