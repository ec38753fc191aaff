-- ===== src/LeaseController/Pending.antt =====
-- `freeReadyDevice` and `reconcilePending` of devicelease_controller.go.
pub mod Claims
pub mod Binding
pub mod Lifecycle
pub mod Order
use android_device_farm.Common.{◌*◌, String, Option, none, some, first, ◌<>◌}
use android_device_farm.Common.Int.{pos}
use android_device_farm.Go.Time.{Time, second, add_time, sub_time}
use android_device_farm.Api.Device.{Device}
use android_device_farm.Api.DeviceLease.{DeviceLease, bound}
use android_device_farm.Kube.Effect.{
  Exec, pure, unless_conflict, ◌>>=◌, ◌>>◌, ReconcileResult, after_duration, again,
}
use android_device_farm.Kube.Client.{Env}
use android_device_farm.PoolController.Provision.{label_class}
use android_device_farm.LeaseController.Select.{is_free_ready}
use android_device_farm.LeaseController.Status.{write_status, ttl_duration}
use android_device_farm.LeaseController.Capacity.{ensure_capacity}
use android_device_farm.LeaseController.Release.{device_bound_to}

abbrev or_now : Option Time → Time → Time
or_now none now = now
or_now (some t) now = t

-- The device as `reconcilePending` sends it: bound to the lease.
abbrev pub claimed : Device → String → Time → Device
claimed dev lease used = record dev {
  status = record (dev.status) { lease_ref = lease; last_used_time = some used };
}

-- `lease.Status.LastHeartbeat`, set to now where it is missing.
abbrev pub heartbeat_of : DeviceLease → Time → Time
heartbeat_of lease now = or_now lease.status.last_heartbeat now

abbrev pub expiry : DeviceLease → Time → Time
expiry lease now = add_time (heartbeat_of lease now) (ttl_duration lease)

-- The fields of the lease's status that `reconcilePending` sets before it writes it.
abbrev pub bound_lease : DeviceLease → Device → Time → DeviceLease
bound_lease lease dev now = record lease {
  status = record (lease.status) {
    last_heartbeat = some (heartbeat_of lease now);
    device_ref = dev.metadata.name;
    adb_endpoint = dev.status.adb_endpoint;
    ui_endpoint = dev.status.ui_endpoint;
    expires_at = some (expiry lease now);
  };
}

module _ {W : Type 0} (env : Env W) where
  unfoldable pub free_ready_device : DeviceLease → Exec W (Option Device)
  free_ready_device lease = do
    devices ← env.list_devices (record {
      namespace = lease.metadata.namespace;
      label = some (label_class, lease.spec.class_ref);
    })
    pure (first is_free_ready devices)

  -- From `now := metav1.Now()` on.
  publish_binding : DeviceLease → Device → Exec W ReconcileResult
  publish_binding lease dev = do
    now ← env.now
    write_status env (bound_lease lease dev now) bound "Bound"
        ("bound to device " <> dev.metadata.name)
    later ← env.now
    pure (after_duration (sub_time (expiry lease now) later))

  -- `none` is a conflict: another lease won.
  bound_or_again : DeviceLease → Option Device → Exec W ReconcileResult
  unfolding publish_binding
  bound_or_again lease none = pure again
  bound_or_again lease (some dev) = publish_binding lease dev

  -- A device that was never used is stamped with the time of its first lease.
  used_time : Option Time → Exec W Time
  used_time none = env.now
  used_time (some t) = pure t

  claim : DeviceLease → Device → Exec W ReconcileResult
  unfolding bound_or_again used_time
  claim lease dev = do
    used ← used_time dev.status.last_used_time
    updated ← unless_conflict (env.update_device_status (claimed dev lease.metadata.name used))
    bound_or_again lease updated

  claim_or_wait : DeviceLease → Option Device → Exec W ReconcileResult
  unfolding claim
  claim_or_wait lease none = do ensure_capacity env lease; pure (after_duration (pos (2 * second)))
  claim_or_wait lease (some dev) = claim lease dev

  bind_device : DeviceLease → Option Device → Exec W ReconcileResult
  unfolding claim_or_wait free_ready_device publish_binding
  bind_device lease (some dev) = publish_binding lease dev
  bind_device lease none = do free ← free_ready_device lease; claim_or_wait lease free

  unfoldable pub reconcile_pending : DeviceLease → Exec W ReconcileResult
  unfolding bind_device
  reconcile_pending lease = do dev ← device_bound_to env lease; bind_device lease dev
