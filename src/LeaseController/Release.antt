-- ===== src/LeaseController/Release.antt =====
-- `deviceBoundTo` and `releaseDevice` of devicelease_controller.go.
pub mod Frees
pub mod Lifecycle
pub mod Order
use android_device_farm.Common.{Option, none, some, first}
use android_device_farm.Go.Time.{Time}
use android_device_farm.Api.Device.{Device}
use android_device_farm.Api.DeviceLease.{DeviceLease}
use android_device_farm.Kube.Effect.{Exec, pure, optional, ◌>>=◌, ◌>>◌}
use android_device_farm.Kube.Client.{Env}
use android_device_farm.DeviceController.Objects.{emulator_pod_name}
use android_device_farm.LeaseController.Select.{is_bound_to}

-- The device as `releaseDevice` sends it.
abbrev pub freed : Device → Time → Device
freed dev now = record dev {
  status = record (dev.status) { lease_ref = ""; last_used_time = some now };
}

module _ {W : Type 0} (env : Env W) where
  unfoldable pub device_bound_to : DeviceLease → Exec W (Option Device)
  device_bound_to lease = do
    devices ← env.list_devices (record { namespace = lease.metadata.namespace; label = none })
    pure (first (is_bound_to lease.metadata.name) devices)

  free_device : Option Device → Exec W Unit
  free_device none = pure tt
  free_device (some dev) = do
    now ← env.now
    updated ← env.update_device_status (freed dev now)
    optional (
        env.delete_pod
          (record { namespace = updated.metadata.namespace; name = emulator_pod_name updated }))
    pure tt

  unfoldable pub release_device : DeviceLease → Exec W Unit
  unfolding device_bound_to free_device
  release_device lease = do dev ← device_bound_to lease; free_device dev
