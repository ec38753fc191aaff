-- ===== src/LeaseController/Capacity.antt =====
-- `ensureCapacity`, `resolvePool`, `poolDevices`, `pendingLeaseDemand` and `provision` of
-- devicelease_controller.go.
pub mod Events
pub mod Room
pub mod Order
use android_device_farm.Common.{
  ℕ, String, Option, none, some, List, not, ◌<>◌, str_eq, length, if◌then◌else◌,
}
use android_device_farm.Go.Int32.{to_int32, lt32}
use android_device_farm.Api.Device.{Device}
use android_device_farm.Api.DeviceClass.{DeviceClass}
use android_device_farm.Api.DeviceLease.{DeviceLease, pending}
use android_device_farm.Api.DevicePool.{DevicePool, EvictionPolicy, lru_idle}
use android_device_farm.Kube.Effect.{Exec, pure, optional, ◌>>=◌, ◌>>◌}
use android_device_farm.Kube.Client.{Env}
use android_device_farm.PoolController.Provision.{create_device, label_pool}
use android_device_farm.LeaseController.Select.{
  active_devices, unclaimed_supply, count_demand, lru_idle_other_class, pool_for_class,
}
use android_device_farm.LeaseController.Status.{write_status}

-- The victim, where the policy allows one.
abbrev victim_under : EvictionPolicy → List Device → String → Option Device
victim_under lru_idle devices class = lru_idle_other_class devices class
victim_under _ devices class = none

module _ {W : Type 0} (env : Env W) where
  -- What `ensureCapacity` reports while the lease waits.
  report : DeviceLease → String → String → Exec W Unit
  report lease reason msg = do write_status env lease pending reason msg; pure tt

  unfoldable pub pending_lease_demand : String → String → Exec W ℕ
  pending_lease_demand namespace class = do
    leases ← env.list_leases (record { namespace = namespace; label = none })
    pure (count_demand leases class)

  unfoldable pub pool_devices : DevicePool → Exec W (List Device)
  pool_devices pool = env.list_devices (record {
    namespace = pool.metadata.namespace;
    label = some (label_pool, pool.metadata.name);
  })

  unfoldable pub resolve_pool : DeviceLease → Exec W (Option DevicePool)
  resolve_pool lease =
      if not (str_eq lease.spec.pool_ref "")
      then optional (
          env.get_pool
            (record { namespace = lease.metadata.namespace; name = lease.spec.pool_ref }))
      else do
        pools ← env.list_pools (record { namespace = lease.metadata.namespace; label = none })
        pure (pool_for_class lease.spec.class_ref pools)

  -- The text of `createDevice` of the pool controller again.
  abbrev provision : DevicePool → DeviceClass → Exec W Unit
  provision pool dc = create_device env pool dc

  evict : DevicePool → DeviceClass → DeviceLease → Device → Exec W Unit
  unfolding report
  evict pool dc lease victim = do
    optional (env.delete_device victim)
    provision pool dc
    report lease "Evicted" (
        "evicted idle " <> victim.spec.class_ref <> " device; provisioning "
        <> lease.spec.class_ref)

  -- The tail of `ensureCapacity`, with the victim where there is one.
  evict_or_wait : DevicePool → DeviceClass → DeviceLease → Option Device → Exec W Unit
  unfolding evict
  evict_or_wait pool dc lease (some victim) = evict pool dc lease victim
  evict_or_wait pool dc lease none =
      report lease "AtCapacity"
        "pool at maxConcurrent with no idle device of another class to evict"

  pub make_room : DevicePool → DeviceClass → DeviceLease → List Device → ℕ → Exec W Unit
  unfolding evict_or_wait
  make_room pool dc lease devices demand =
      if not (lt32 (unclaimed_supply devices lease.spec.class_ref) demand)
      then report lease "WaitingForDevice" (
          "waiting for a provisioning device of class " <> lease.spec.class_ref
          <> " to become Ready")
      else if lt32 (to_int32 (length (active_devices devices))) pool.spec.max_concurrent
      then (do
        provision pool dc
        report lease "Provisioning" ("provisioning a device of class " <> lease.spec.class_ref))
      else evict_or_wait pool dc lease
          (victim_under pool.spec.eviction_policy devices lease.spec.class_ref)

  capacity_of_class : DevicePool → DeviceLease → Option DeviceClass → Exec W Unit
  unfolding make_room pool_devices pending_lease_demand
  capacity_of_class pool lease none =
      report lease "DeviceClassNotFound"
        ("DeviceClass " <> lease.spec.class_ref <> " does not exist")
  capacity_of_class pool lease (some dc) = do
    devices ← pool_devices pool
    demand ← pending_lease_demand pool.metadata.namespace lease.spec.class_ref
    make_room pool dc lease devices demand

  capacity_in_pool : DeviceLease → Option DevicePool → Exec W Unit
  unfolding capacity_of_class
  capacity_in_pool lease none =
      report lease "NoPool" ("no DevicePool offers class " <> lease.spec.class_ref)
  capacity_in_pool lease (some pool) = do
    dc ← optional (env.get_device_class (record { namespace = ""; name = lease.spec.class_ref }))
    capacity_of_class pool lease dc

  unfoldable pub ensure_capacity : DeviceLease → Exec W Unit
  unfolding capacity_in_pool resolve_pool
  ensure_capacity lease = do pool ← resolve_pool lease; capacity_in_pool lease pool
