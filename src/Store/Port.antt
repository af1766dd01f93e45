-- ===== src/Store/Port.antt =====
-- control-plane/internal/store/store.go: the port that the service works on, and the ConfigMap store as
-- an implementation of it.
use session_platform.Prelude.{ℕ, List, Option, Text, Action, some}
use session_platform.Session.Errors.{Error}
use session_platform.Session.Types.{State}
use session_platform.Session.Record.{Session, SnapshotTransaction}
use session_platform.Kubernetes.{Api}
use session_platform.Store.Objects.{Codec}
use session_platform.Store.Records
use session_platform.Store.Leases

pub record StateStore (W : Type 0) : Type 0 where
  pub put : Session → Action W Error Unit
  pub get : Text → Action W Error Session
  pub list : Action W Error (List Session)
  pub delete : Text → Text → Action W Error Unit
  pub touch : Text → ℕ → Action W Error Unit
  pub compare_and_swap_state : Text → State → State → Action W Error Unit
  pub compare_and_swap_session :
      Text → Text → State → Option SnapshotTransaction → Session → Action W Error Unit
  pub lock : Text → Text → Action W Error Unit
  pub renew : Text → Text → Action W Error Unit
  pub unlock : Text → Text → Action W Error Unit

module _ {W : Type 0} (k8s : Api W) (codec : Codec) (lease_dur : ℕ) where
  unfoldable pub config_map_store : StateStore W
  config_map_store = record {
    put = Records.put k8s codec;
    get = Records.get k8s codec;
    list = Records.list k8s codec;
    delete = Records.delete k8s codec;
    touch = Records.touch k8s codec;
    compare_and_swap_state = Records.compare_and_swap_state k8s codec;
    compare_and_swap_session = λ id token state txn next.
        Records.compare_and_swap_session k8s codec id token state txn (some next);
    lock = Leases.lock k8s lease_dur;
    renew = Leases.renew k8s lease_dur;
    unlock = Leases.unlock k8s lease_dur;
  }
