-- ===== src/LeaseController/Capacity/Order.antt =====
-- `ensureCapacity` deletes before it creates, and reports at the end.
use android_device_farm.Common.{refl, ℕ, ◌≤◌, String, Option, none, some, List, arith}
use android_device_farm.Api.Device.{Device}
use android_device_farm.Api.DeviceClass.{DeviceClass}
use android_device_farm.Api.DeviceLease.{DeviceLease}
use android_device_farm.Api.DevicePool.{DevicePool}
use android_device_farm.Kube.Client.{Env}
use android_device_farm.Kube.Hoare.{
  Keeps-bind, Keeps-pure, Keeps-lift, Keeps-optional, Keeps-if, Triple-Keeps, Triple-if,
  Triple-optional_same,
}
use android_device_farm.Kube.Trace.{traced, Keeps-silent, Keeps-seeing}
use android_device_farm.LeaseController.Order.{Advances, Advances-bind, Advances-sending}
use android_device_farm.PoolController.Provision.{create_device}
use android_device_farm.LeaseController.Status.Order.{write_status-Advances}
use android_device_farm.LeaseController.Capacity.{
  report, pending_lease_demand, pool_devices, resolve_pool, evict, evict_or_wait, make_room,
  capacity_of_class, capacity_in_pool, ensure_capacity,
}

module _ {W : Type 0} (env : Env W) (lease : DeviceLease) where
  report-Advances :
      (n : ℕ) → n ≤ 3 → (reason msg : String) → Advances n 4 (report (traced env) lease reason msg)
  unfolding report
  report-Advances n le reason msg =
      Advances-bind n 4 4 (omega arith) (write_status-Advances env lease n le _ reason msg)
        λ _. Triple-Keeps (Keeps-pure tt)

  create_device-Advances :
      (n : ℕ)
      → n ≤ 1
      → (pool : DevicePool) (dc : DeviceClass) → Advances n 2 (create_device (traced env) pool dc)
  unfolding create_device
  create_device-Advances n le pool dc =
      Advances-bind n n 2 (omega arith) (Triple-Keeps (Keeps-lift _)) λ owned.
        Advances-bind n 2 2 (omega arith) (Advances-sending n 1 _ _ refl le)
          λ _. Triple-Keeps (Keeps-pure tt)

  evict-Advances :
      (pool : DevicePool) (dc : DeviceClass) (victim : Option Device)
      → Advances 0 4 (evict_or_wait (traced env) pool dc lease victim)
  unfolding evict_or_wait evict
  evict-Advances pool dc none = report-Advances 0 (omega arith) _ _
  evict-Advances pool dc (some victim) =
      Advances-bind 0 1 4 (omega arith)
        (Triple-optional_same (Advances-sending 0 0 _ _ refl (omega arith)))
        λ _.
          Advances-bind 1 2 4 (omega arith) (create_device-Advances 1 (omega arith) pool dc)
            λ _. report-Advances 2 (omega arith) _ _

  make_room-Advances :
      (pool : DevicePool) (dc : DeviceClass) (devices : List Device) (demand : ℕ)
      → Advances 0 4 (make_room (traced env) pool dc lease devices demand)
  unfolding make_room
  make_room-Advances pool dc devices demand = Triple-if _ (report-Advances 0 (omega arith) _ _) (
      Triple-if _
        (Advances-bind 0 2 4 (omega arith) (create_device-Advances 0 (omega arith) pool dc)
          λ _. report-Advances 2 (omega arith) _ _)
        (evict-Advances pool dc _))

  capacity_of_class-Advances :
      (pool : DevicePool) (dc : Option DeviceClass)
      → Advances 0 4 (capacity_of_class (traced env) pool lease dc)
  unfolding capacity_of_class pool_devices pending_lease_demand
  capacity_of_class-Advances pool none = report-Advances 0 (omega arith) _ _
  capacity_of_class-Advances pool (some dc) =
      Advances-bind 0 0 4 (omega arith) (Triple-Keeps (Keeps-seeing _ _ λ ds log h. h)) λ devices.
        Advances-bind 0 0 4 (omega arith)
          (Triple-Keeps (Keeps-bind (Keeps-silent _) λ _. Keeps-pure _))
          λ demand. make_room-Advances pool dc devices demand

  capacity_in_pool-Advances :
      (pool : Option DevicePool) → Advances 0 4 (capacity_in_pool (traced env) lease pool)
  unfolding capacity_in_pool
  capacity_in_pool-Advances none = report-Advances 0 (omega arith) _ _
  capacity_in_pool-Advances (some pool) =
      Advances-bind 0 0 4 (omega arith) (Triple-Keeps (Keeps-optional (Keeps-silent _)))
        λ dc. capacity_of_class-Advances pool dc

  pub ensure_capacity-Advances : Advances 0 4 (ensure_capacity (traced env) lease)
  unfolding ensure_capacity resolve_pool
  ensure_capacity-Advances =
      Advances-bind 0 0 4 (omega arith)
        (Triple-Keeps (
          Keeps-if _ (Keeps-optional (Keeps-silent _))
            (Keeps-bind (Keeps-silent _) λ _. Keeps-pure _)))
        capacity_in_pool-Advances
