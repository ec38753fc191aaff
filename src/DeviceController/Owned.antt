-- ===== src/DeviceController/Owned.antt =====
-- What a reconcile of a device may send: writes of the device, and of the pod, the service and the
-- registration job that go by its name.
use android_device_farm.Common.{◌≡◌, ap, String, List, ◌<>◌, All}
use android_device_farm.Api.Meta.{ObjectMeta, ObjectKey, key_of}
use android_device_farm.Api.Device.{Device}
use android_device_farm.Kube.Effect.{ok}
use android_device_farm.Kube.Client.{Machinery}
use android_device_farm.Kube.Trace.{
  Event, saw_devices, sent_device_status, sent_device, created_pod, deleted_pod, created_service,
  sent_service, created_job, Traced, OnLog,
}
use android_device_farm.DeviceController.Objects.{
  emulator_pod_name, adb_service_name, register_job_name,
}

-- The key of the object that goes by the device's name and a suffix.
abbrev pub suffixed : ObjectKey → String → ObjectKey
suffixed key suffix = record { namespace = key.namespace; name = key.name <> suffix }

-- The metadata of an object of the device with this key, under an owner reference to it.
abbrev pub OwnedBy : Machinery → ObjectKey → String → ObjectMeta → Type 0
OwnedBy m key suffix meta =
    (owner : ObjectMeta) × (built : ObjectMeta) × (key_of owner ≡ key)
    × (key_of built ≡ suffixed key suffix)
    × (m.set_controller_reference "Device" owner built ≡ ok meta)

abbrev pub IsDeviceEvent : Machinery → ObjectKey → Event → Type 0
IsDeviceEvent m key (saw_devices ds) = Unit
IsDeviceEvent m key (sent_device_status d) = key_of d.metadata ≡ key
IsDeviceEvent m key (sent_device d) = key_of d.metadata ≡ key
IsDeviceEvent m key (created_pod p) = OwnedBy m key "-emulator" p.metadata
IsDeviceEvent m key (deleted_pod k) = k ≡ suffixed key "-emulator"
IsDeviceEvent m key (created_service s) = OwnedBy m key "-adb" s.metadata
IsDeviceEvent m key (sent_service s) = key_of s.metadata ≡ suffixed key "-adb"
IsDeviceEvent m key (created_job j) = OwnedBy m key "-register" j.metadata
IsDeviceEvent m key e = ⊥

module _ (m : Machinery) (key : ObjectKey) where
  abbrev pub Logged : List Event → Type 0
  Logged = All (IsDeviceEvent m key)

  abbrev pub Own : {W : Type 0} → Traced W → Type 0
  Own = OnLog Logged

-- The keys that the program builds from a device's name.
module _ (d : Device) (key : ObjectKey) (named : key_of d.metadata ≡ key) where
  pub emulator_pod_key :
      record { namespace = d.metadata.namespace; name = emulator_pod_name d }
      ≡ suffixed key "-emulator"
  unfolding emulator_pod_name
  emulator_pod_key = ap (λ k. suffixed k "-emulator") named

  pub adb_service_key :
      record { namespace = d.metadata.namespace; name = adb_service_name d } ≡ suffixed key "-adb"
  unfolding adb_service_name
  adb_service_key = ap (λ k. suffixed k "-adb") named

  pub register_job_key :
      record { namespace = d.metadata.namespace; name = register_job_name d }
      ≡ suffixed key "-register"
  unfolding register_job_name
  register_job_key = ap (λ k. suffixed k "-register") named
