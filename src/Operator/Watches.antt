-- ===== src/Operator/Watches.antt =====
-- `SetupWithManager` of device_controller.go, devicepool_controller.go and devicelease_controller.go:
-- which objects each controller reconciles, owns and watches.
use android_device_farm.Common.{String, List, [], ◌∷◌}
use android_device_farm.Api.Meta.{ObjectKey}
use android_device_farm.Kube.Effect.{Exec, ReconcileResult}
use android_device_farm.Kube.Client.{Env}
use android_device_farm.LeaseController.Reconcile.{leases_for_device}
use android_device_farm.PoolController.Reconcile.{pools_for_lease}

pub data Kind : Type 0 where
  device device_pool device_lease pod service job : Kind

-- What a builder of controller-runtime has collected when `Complete(r)` is called: `For`, `Owns`,
-- `Watches` with its map function, `Named`, and the reconciler.
pub record Registration (W : Type 0) : Type 0 where
  pub name : String
  pub reconciled : Kind
  pub owned : List Kind
  pub watched : List (Kind × (ObjectKey → Exec W (List ObjectKey)))
  pub reconcile : ObjectKey → Exec W ReconcileResult

module _ {W : Type 0} (env : Env W) where
  abbrev pub device_registration : Registration W
  device_registration = record {
    name = "device";
    reconciled = device;
    owned = pod ∷ service ∷ job ∷ [];
    watched = [];
    reconcile = android_device_farm.DeviceController.Reconcile.reconcile env;
  }

  abbrev pub pool_registration : Registration W
  pool_registration = record {
    name = "devicepool";
    reconciled = device_pool;
    owned = device ∷ [];
    watched = (device_lease, pools_for_lease env) ∷ [];
    reconcile = android_device_farm.PoolController.Reconcile.reconcile env;
  }

  abbrev pub lease_registration : Registration W
  lease_registration = record {
    name = "devicelease";
    reconciled = device_lease;
    owned = [];
    watched = (device, leases_for_device env) ∷ [];
    reconcile = android_device_farm.LeaseController.Reconcile.reconcile env;
  }
