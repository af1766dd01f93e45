-- ===== src/Kubernetes/Versions.antt =====
-- What the code relies on of the Kubernetes API: resource versions. Other replicas act at any time, so
-- a call is placed at a moment between the world that it was made in and the one that it returned in.
use session_platform.Prelude.{ℕ, ◌≡◌, Option, none, some, Text, ok, err}
use session_platform.Session.Errors.{missing}
use session_platform.Kubernetes.{ConfigMap, Lease, Api}

-- An object read: it stood there at some moment of the call.
pub record Seen {W O : Type 0} (Later : W → W → Type 0) (object : W → Text → Option O) (name : Text)
    (w w' : W) (o : O) : Type 0 where
  pub at : W
  pub started : Later w at
  pub returned : Later at w'
  pub stored : object at name ≡ some o

-- A write that was accepted: at one moment of the call the object turned from one of the version that was sent into
-- what the write left.
pub record Won {W O : Type 0} (Later Next : W → W → Type 0) (object : W → Text → Option O)
    (version : O → ℕ) (name : Text) (w w' : W) (sent : ℕ) (after : Option O) : Type 0 where
  pub at : W
  pub next : W
  pub old : O
  pub started : Later w at
  pub happened : Next at next
  pub returned : Later next w'
  pub stored : object at name ≡ some old
  pub unchanged : version old ≡ sent
  pub left : object next name ≡ after

-- An object that was made: at one moment of the call there was none, and then this one.
pub record Made {W O : Type 0} (Later Next : W → W → Type 0) (object : W → Text → Option O)
    (name : Text) (w w' : W) (new : O) : Type 0 where
  pub at : W
  pub next : W
  pub started : Later w at
  pub happened : Next at next
  pub returned : Later next w'
  pub absent : object at name ≡ none
  pub left : object next name ≡ some new

-- There was none at some moment of the call.
pub record Gone {W O : Type 0} (Later : W → W → Type 0) (object : W → Text → Option O) (name : Text)
    (w w' : W) : Type 0 where
  pub at : W
  pub started : Later w at
  pub returned : Later at w'
  pub absent : object at name ≡ none

-- The documented behaviour of the API server: an update or a delete that carries a resource version is
-- accepted only for the object of that version, and no two states of an object share a version. `Next` holds of
-- the states just before and just after one write.
pub record Versioned {W : Type 0} (k8s : Api W) : Type 1 where
  pub Later : W → W → Type 0
  pub Next : W → W → Type 0
  pub config_map : W → Text → Option ConfigMap
  pub lease : W → Text → Option Lease
  pub later_refl : (w : W) → Later w w
  pub later_trans : (u v w : W) → Later u v → Later v w → Later u w
  pub same_config_map :
      (v w : W) (name : Text) (a b : ConfigMap)
      → Later v w
      → config_map v name ≡ some a
      → config_map w name ≡ some b
      → b.resource_version ≡ a.resource_version
      → b ≡ a
  pub same_lease :
      (v w : W) (name : Text) (a b : Lease)
      → Later v w
      → lease v name ≡ some a
      → lease w name ≡ some b
      → b.resource_version ≡ a.resource_version
      → b ≡ a
  pub get_config_map_lem :
      (name : Text) (w w' : W) (cm : ConfigMap)
      → k8s.get_config_map name w ≡ (ok cm, w')
      → Seen Later config_map name w w' cm × (cm.name ≡ name)
  pub get_config_map_missing :
      (name : Text) (w w' : W)
      → k8s.get_config_map name w ≡ (err missing, w')
      → Gone Later config_map name w w'
  pub get_config_map_later : (name : Text) (w : W) → Later w (k8s.get_config_map name w).1
  pub update_config_map_later : (cm : ConfigMap) (w : W) → Later w (k8s.update_config_map cm w).1
  pub delete_config_map_later :
      (name : Text) (sent : ℕ) (w : W) → Later w (k8s.delete_config_map name sent w).1
  pub delete_config_map_missing :
      (name : Text) (sent : ℕ) (w w' : W)
      → k8s.delete_config_map name sent w ≡ (err missing, w')
      → Gone Later config_map name w w'
  pub get_lease_later : (name : Text) (w : W) → Later w (k8s.get_lease name w).1
  pub update_lease_later : (l : Lease) (w : W) → Later w (k8s.update_lease l w).1
  pub delete_lease_later :
      (name : Text) (sent : ℕ) (w : W) → Later w (k8s.delete_lease name sent w).1
  pub create_lease_later : (l : Lease) (w : W) → Later w (k8s.create_lease l w).1
  pub create_lease_lem :
      (name : Text) (l new : Lease) (w w' : W)
      → l.name ≡ name
      → k8s.create_lease l w ≡ (ok new, w')
      → Made Later Next lease name w w' new
        × (new.holder_identity ≡ l.holder_identity)
        × (new.renew_time ≡ l.renew_time)
  pub get_lease_lem :
      (name : Text) (w w' : W) (l : Lease)
      → k8s.get_lease name w ≡ (ok l, w')
      → Seen Later lease name w w' l × (l.name ≡ name)
  pub update_config_map_lem :
      (name : Text) (sent : ℕ) (cm new : ConfigMap) (w w' : W)
      → cm.name ≡ name
      → cm.resource_version ≡ sent
      → k8s.update_config_map cm w ≡ (ok new, w')
      → Won Later Next config_map (λ o. o.resource_version) name w w' sent (some new)
        × (new.contents ≡ cm.contents)
  pub delete_config_map_lem :
      (name : Text) (sent : ℕ) (w w' : W)
      → k8s.delete_config_map name sent w ≡ (ok tt, w')
      → Won Later Next config_map (λ o. o.resource_version) name w w' sent none
  pub update_lease_lem :
      (name : Text) (sent : ℕ) (l new : Lease) (w w' : W)
      → l.name ≡ name
      → l.resource_version ≡ sent
      → k8s.update_lease l w ≡ (ok new, w')
      → Won Later Next lease (λ o. o.resource_version) name w w' sent (some new)
        × (new.holder_identity ≡ l.holder_identity)
        × (new.renew_time ≡ l.renew_time)

module _ {W : Type 0} {k8s : Api W} (laws : Versioned k8s) where
  open laws use {Later, Next, config_map, lease, later_trans, same_config_map, same_lease}

  -- An accepted write after a read of the same version replaced just what was read.
  pub config_map-old :
      (name : Text) (w w' u : W) (cm : ConfigMap) {after : Option ConfigMap}
      → Seen Later config_map name w w' cm
      → (won : Won Later Next config_map
          (λ o. o.resource_version)
          name
          w'
          u
          cm.resource_version
          after)
      → won.old ≡ cm
  config_map-old name w w' u cm seen won =
      same_config_map seen.at won.at name cm won.old
        (later_trans seen.at w' won.at seen.returned won.started) seen.stored won.stored
        won.unchanged

  pub lease-old :
      (name : Text) (w w' u : W) (l : Lease) {after : Option Lease}
      → Seen Later lease name w w' l
      → (won : Won Later Next lease (λ o. o.resource_version) name w' u l.resource_version after)
      → won.old ≡ l
  lease-old name w w' u l seen won =
      same_lease seen.at won.at name l won.old
        (later_trans seen.at w' won.at seen.returned won.started) seen.stored won.stored
        won.unchanged
