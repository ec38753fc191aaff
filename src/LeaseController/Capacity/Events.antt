-- ===== src/LeaseController/Capacity/Events.antt =====
-- `ensureCapacity` reads, creates and deletes devices and reports the lease as pending, and does
-- nothing else.
use android_device_farm.Common.{ℕ, refl, String, Bool, true, false, Option, none, some, List, ◌∷◌}
use android_device_farm.Api.Device.{Device}
use android_device_farm.Api.DeviceClass.{DeviceClass}
use android_device_farm.Api.DeviceLease.{DeviceLease, LeasePhase}
use android_device_farm.Api.DevicePool.{DevicePool}
use android_device_farm.Kube.Hoare.{
  Keeps, Keeps-bind, Keeps-optional, Keeps-pure, Keeps-lift, Keeps-if,
}
use android_device_farm.Kube.Client.{Env}
use android_device_farm.Kube.Trace.{
  Event, created_device, deleted_device, sent_lease_status, saw_devices, traced, OnLog, Closed,
  Keeps-seeing, Keeps-silent, Keeps-sending,
}
use android_device_farm.PoolController.Provision.{create_device}
use android_device_farm.LeaseController.Status.{with_status, write_status}
use android_device_farm.LeaseController.Capacity.{
  report, pending_lease_demand, pool_devices, resolve_pool, evict_or_wait, make_room,
  capacity_of_class, capacity_in_pool, ensure_capacity,
}

abbrev pub is_capacity_event : Event → Bool
is_capacity_event (saw_devices ds) = true
is_capacity_event (created_device d) = true
is_capacity_event (deleted_device d) = true
is_capacity_event _ = false

module _ {W : Type 0} (env : Env W) (I : List Event → Type 0) (lease : DeviceLease)
    (closed : Closed is_capacity_event I)
    (reports : (reason msg : String) (log : List Event)
      → I log
      → I (
          sent_lease_status (with_status env.machinery lease LeasePhase.pending reason msg)
          ∷ log)) where
  create_device-Keeps :
      (pool : DevicePool) (dc : DeviceClass) → Keeps (OnLog I) (create_device (traced env) pool dc)
  unfolding create_device
  create_device-Keeps pool dc = Keeps-bind (Keeps-lift _) λ owned.
      Keeps-bind (Keeps-sending _ _ λ log. closed (created_device _) log refl) λ _. Keeps-pure tt

  report-Keeps : (reason msg : String) → Keeps (OnLog I) (report (traced env) lease reason msg)
  unfolding report write_status
  report-Keeps reason msg = Keeps-bind (Keeps-sending _ _ (reports reason msg)) λ _. Keeps-pure tt

  resolve_pool-Keeps : Keeps (OnLog I) (resolve_pool (traced env) lease)
  unfolding resolve_pool
  resolve_pool-Keeps =
      Keeps-if _ (Keeps-optional (Keeps-silent _)) (Keeps-bind (Keeps-silent _) λ _. Keeps-pure _)

  evict-Keeps :
      (pool : DevicePool) (dc : DeviceClass) (victim : Option Device)
      → Keeps (OnLog I) (evict_or_wait (traced env) pool dc lease victim)
  unfolding evict_or_wait
  evict-Keeps pool dc none = report-Keeps _ _
  evict-Keeps pool dc (some victim) =
      Keeps-bind (Keeps-optional (Keeps-sending _ _ λ log. closed (deleted_device victim) log refl))
        λ _. Keeps-bind (create_device-Keeps pool dc) λ _. report-Keeps _ _

  make_room-Keeps :
      (pool : DevicePool) (dc : DeviceClass) (devices : List Device) (demand : ℕ)
      → Keeps (OnLog I) (make_room (traced env) pool dc lease devices demand)
  unfolding make_room
  make_room-Keeps pool dc devices demand = Keeps-if _ (report-Keeps _ _) (
      Keeps-if _ (Keeps-bind (create_device-Keeps pool dc) λ _. report-Keeps _ _)
        (evict-Keeps pool dc _))

  capacity_of_class-Keeps :
      (pool : DevicePool) (dc : Option DeviceClass)
      → Keeps (OnLog I) (capacity_of_class (traced env) pool lease dc)
  unfolding capacity_of_class pool_devices pending_lease_demand
  capacity_of_class-Keeps pool none = report-Keeps _ _
  capacity_of_class-Keeps pool (some dc) =
      Keeps-bind (Keeps-seeing _ _ λ ds log. closed (saw_devices ds) log refl) λ devices.
        Keeps-bind (Keeps-bind (Keeps-silent _) λ _. Keeps-pure _)
          λ demand. make_room-Keeps pool dc devices demand

  capacity_in_pool-Keeps :
      (pool : Option DevicePool) → Keeps (OnLog I) (capacity_in_pool (traced env) lease pool)
  unfolding capacity_in_pool
  capacity_in_pool-Keeps none = report-Keeps _ _
  capacity_in_pool-Keeps (some pool) =
      Keeps-bind (Keeps-optional (Keeps-silent _)) λ dc. capacity_of_class-Keeps pool dc

  pub ensure_capacity-Keeps : Keeps (OnLog I) (ensure_capacity (traced env) lease)
  unfolding ensure_capacity
  ensure_capacity-Keeps = Keeps-bind resolve_pool-Keeps λ pool. capacity_in_pool-Keeps pool
