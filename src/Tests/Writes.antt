-- ===== src/Tests/Writes.antt =====
-- What the controllers write, on the small farm.
use android_device_farm.LeaseController.Order.{stages, Descends}
use android_device_farm.LeaseController.Reconcile.Order.{reconcile-Descends}
use android_device_farm.Common.{◌-◌, ◌≤◌, false, none, List, [], ◌∷◌, count, length, All, arith}
use android_device_farm.Go.Int32.{sub32}
use android_device_farm.Api.Meta.{ObjectKey}
use android_device_farm.Api.Device.{Device}
use android_device_farm.Api.DeviceLease.{LeasePhase}
use android_device_farm.Api.DevicePool.{PoolClass}
use android_device_farm.Kube.Client.{Env}
use android_device_farm.Kube.Trace.{traced}
use android_device_farm.LeaseController.Select.{active_devices}
use android_device_farm.DeviceController.Owned.{IsDeviceEvent}
use android_device_farm.DeviceController.Reconcile.Owned.{reconcile-IsDeviceEvent}
use android_device_farm.LeaseController.Lifecycle.{Steps}
use android_device_farm.LeaseController.Reconcile.Lifecycle.{IsRead, reconcile-Steps}
use android_device_farm.PoolController.Warm.{active_by_class, total_from, warm_classes}
use android_device_farm.PoolController.Warm.Creations.{is_creation}
use android_device_farm.PoolController.Warm.Classes.{warm_classes-fits}
use android_device_farm.PoolController.Reconcile.Writes.{IsPoolEvent, reconcile-IsPoolEvent}
use android_device_farm.Tests.Farm.{
  farm, tablet, phone, pool, lease_in, class_of, gets_pool_by_key, keeps_keys, stores_status,
}

abbrev devices : List Device
devices = tablet ∷ []

abbrev server : Env Unit
server = farm (lease_in LeasePhase.pending none) devices phone

abbrev classes : List PoolClass
classes = class_of "phone" 3 ∷ class_of "tablet" 2 ∷ []

warm_classes-fits_example :
    count is_creation
      (warm_classes
        (traced server)
        (record pool { spec = record (pool.spec) { max_concurrent = 4 } })
        (active_by_class devices)
        (sub32 4 1)
        classes
        (total_from 0 (active_by_class devices))
        false
        (record { world = tt; log = [] })).1.log
    ≤ 4 - 1 - length (active_devices devices)
warm_classes-fits_example =
    warm_classes-fits server (record pool { spec = record (pool.spec) { max_concurrent = 4 } })
      devices classes 1 false tt (omega arith) (omega arith) (omega arith)

abbrev pool_key : ObjectKey
pool_key = record { namespace = "default"; name = "pool" }

reconcile-IsPoolEvent_example :
    All
      (IsPoolEvent server.machinery pool_key)
      (android_device_farm.PoolController.Reconcile.reconcile
        (traced server)
        pool_key
        (record { world = tt; log = [] })).1.log
reconcile-IsPoolEvent_example =
    reconcile-IsPoolEvent server pool_key tt
      (gets_pool_by_key (lease_in LeasePhase.pending none) devices phone)

abbrev device_key : ObjectKey
device_key = record { namespace = "default"; name = "phone-1" }

reconcile-IsDeviceEvent_example :
    All
      (IsDeviceEvent server.machinery device_key)
      (android_device_farm.DeviceController.Reconcile.reconcile
        (traced server)
        device_key
        (record { world = tt; log = [] })).1.log
reconcile-IsDeviceEvent_example =
    reconcile-IsDeviceEvent server device_key tt
      (keeps_keys (lease_in LeasePhase.pending none) devices phone)

abbrev lease_key : ObjectKey
lease_key = record { namespace = "default"; name = "ci-7" }

reconcile-Steps_example :
    Steps
      (IsRead server lease_key)
      (android_device_farm.LeaseController.Reconcile.reconcile
        (traced server)
        lease_key
        (record { world = tt; log = [] })).1.log
reconcile-Steps_example =
    reconcile-Steps server lease_key tt
      (stores_status (lease_in LeasePhase.pending none) devices phone)

reconcile-Descends_example : Descends 4 (
    stages
      (android_device_farm.LeaseController.Reconcile.reconcile
        (traced server)
        lease_key
        (record { world = tt; log = [] })).1.log)
reconcile-Descends_example = reconcile-Descends server lease_key tt
