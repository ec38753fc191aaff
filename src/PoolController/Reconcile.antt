-- ===== src/PoolController/Reconcile.antt =====
-- `Reconcile`, `updateStatus` and `poolsForLease` of devicepool_controller.go.
pub mod Writes
use android_device_farm.Common.{Bool, true, false, Option, none, some, List, [], map}
use android_device_farm.Go.Int32.{sub32}
use android_device_farm.Api.Meta.{ObjectKey, Condition, condition_true, condition_false, key_of}
use android_device_farm.Api.Device.{Device}
use android_device_farm.Api.DevicePool.{DevicePool}
use android_device_farm.Kube.Effect.{
  Exec, pure, optional, tried, ◌>>=◌, ◌>>◌, ReconcileResult, done,
}
use android_device_farm.Kube.Client.{Env, Machinery, ListOptions}
use android_device_farm.PoolController.Provision.{label_pool}
use android_device_farm.PoolController.Counts.{compute_counts}
use android_device_farm.PoolController.Warm.{
  ByClass, active_by_class, total_from, all_devices, reserve_from, warm_classes,
}

abbrev pub pool_condition : DevicePool → Bool → Condition
pool_condition pool true = record {
  condition_type = "Ready";
  status = condition_false;
  observed_generation = pool.metadata.generation;
  reason = "DeviceClassNotFound";
  message = "one or more referenced DeviceClasses do not exist";
}
pool_condition pool false = record {
  condition_type = "Ready";
  status = condition_true;
  observed_generation = pool.metadata.generation;
  reason = "WarmPoolSatisfied";
  message = "minWarm satisfied for all referenced classes";
}

abbrev pub of_pool : DevicePool → ListOptions
of_pool pool = record {
  namespace = pool.metadata.namespace;
  label = some (label_pool, pool.metadata.name);
}

-- The pool as `updateStatus` sends it.
unfoldable pub with_counts : Machinery → DevicePool → List Device → Bool → DevicePool
with_counts m pool devices class_missing = record pool {
  status = record {
    per_class = compute_counts pool.spec.classes devices;
    conditions =
        (m.set_status_condition pool.status.conditions (pool_condition pool class_missing)).0;
  };
}

abbrev keys_of : Option (List DevicePool) → List ObjectKey
keys_of none = []
keys_of (some pools) = map (λ (p : DevicePool). key_of p.metadata) pools

module _ {W : Type 0} (env : Env W) where
  unfoldable pub update_status : DevicePool → Bool → Exec W Unit
  unfolding with_counts
  update_status pool class_missing = do
    devices ← env.list_devices (of_pool pool)
    env.update_pool_status (with_counts env.machinery pool devices class_missing)
    pure tt

  warm_up : DevicePool → ByClass → Exec W ReconcileResult
  unfolding update_status
  warm_up pool active = do
    reserved ← reserve_from env pool.metadata.namespace (all_devices active) 0 pool.spec.classes
    (total, class_missing) ←
        warm_classes env pool active (sub32 pool.spec.max_concurrent reserved) pool.spec.classes
          (total_from 0 active) false
    update_status pool class_missing
    pure done

  reconcile_found : Option DevicePool → Exec W ReconcileResult
  unfolding warm_up
  reconcile_found none = pure done
  reconcile_found (some pool) = do
    devices ← env.list_devices (of_pool pool)
    warm_up pool (active_by_class devices)

  unfoldable pub reconcile : ObjectKey → Exec W ReconcileResult
  unfolding reconcile_found
  reconcile key = do pool ← optional (env.get_pool key); reconcile_found pool

  -- A failed listing enqueues nothing.
  unfoldable pub pools_for_lease : ObjectKey → Exec W (List ObjectKey)
  pools_for_lease lease = do
    pools ← tried (env.list_pools (record { namespace = lease.namespace; label = none }))
    pure (keys_of pools)
