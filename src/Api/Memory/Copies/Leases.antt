-- ===== src/Api/Memory/Copies/Leases.antt =====
-- zz_generated.deepcopy.go: the copies of device leases and of what they hold. `DeepCopyObject` is
-- `DeepCopy`, whose result it returns as an interface.
use android_device_farm.Common.{refl, Option}
use android_device_farm.Api.DeviceLease.{DeviceLeaseSpec}
use android_device_farm.Api.Memory.{
  Pointer, Slice, Layout, Copier, Fields, assign, in_option, in_pair, in_struct, in_slice,
  copy_option, copy_struct, copy_pointer, copy_slice, ◌then◌,
}
use android_device_farm.Api.Memory.Types.{Library, DeviceLeaseStatus, DeviceLease, ListOf}

-- A struct without references.
abbrev pub device_lease_spec_copy_into : Copier DeviceLeaseSpec
device_lease_spec_copy_into = assign

abbrev pub device_lease_spec_deep_copy : Copier (Pointer DeviceLeaseSpec)
device_lease_spec_deep_copy = copy_pointer device_lease_spec_copy_into

module _ (lib : Library) where
  abbrev pub device_lease_status_fields :
      Fields
        (DeviceLeaseStatus lib)
        (Option lib.time.Carrier × (Option lib.time.Carrier × Slice lib.condition.Carrier))
  device_lease_status_fields = record {
    get = λ s. (s.expires_at, (s.last_heartbeat, s.conditions));
    put = λ s a. record s { expires_at = a.0; last_heartbeat = a.1.0; conditions = a.1.1 };
    get_put = λ s a. refl;
    put_put = λ s a b. refl;
  }

  abbrev pub device_lease_status_layout : Layout (DeviceLeaseStatus lib)
  device_lease_status_layout = in_struct device_lease_status_fields (
      in_pair (in_option lib.time.layout)
        (in_pair (in_option lib.time.layout) (in_slice lib.condition.layout)))

  abbrev pub device_lease_status_copy_into : Copier (DeviceLeaseStatus lib)
  device_lease_status_copy_into = copy_struct device_lease_status_fields (
      (copy_option lib.time.copy)
      then (copy_option lib.time.copy)
      then copy_slice lib.condition.copy)

  abbrev pub device_lease_status_deep_copy : Copier (Pointer (DeviceLeaseStatus lib))
  device_lease_status_deep_copy = copy_pointer device_lease_status_copy_into

  abbrev pub device_lease_fields :
      Fields (DeviceLease lib) (lib.object_meta.Carrier × DeviceLeaseStatus lib)
  device_lease_fields = record {
    get = λ s. (s.metadata, s.status);
    put = λ s a. record s { metadata = a.0; status = a.1 };
    get_put = λ s a. refl;
    put_put = λ s a b. refl;
  }

  abbrev pub device_lease_layout : Layout (DeviceLease lib)
  device_lease_layout =
      in_struct device_lease_fields (in_pair lib.object_meta.layout (device_lease_status_layout))

  abbrev pub device_lease_copy_into : Copier (DeviceLease lib)
  device_lease_copy_into =
      copy_struct device_lease_fields (lib.object_meta.copy then device_lease_status_copy_into)

  abbrev pub device_lease_deep_copy : Copier (Pointer (DeviceLease lib))
  device_lease_deep_copy = copy_pointer device_lease_copy_into

  abbrev pub device_lease_list_fields :
      Fields (ListOf lib (DeviceLease lib)) (lib.list_meta.Carrier × Slice (DeviceLease lib))
  device_lease_list_fields = record {
    get = λ s. (s.metadata, s.items);
    put = λ s a. record s { metadata = a.0; items = a.1 };
    get_put = λ s a. refl;
    put_put = λ s a b. refl;
  }

  abbrev pub device_lease_list_layout : Layout (ListOf lib (DeviceLease lib))
  device_lease_list_layout =
      in_struct device_lease_list_fields
        (in_pair lib.list_meta.layout (in_slice (device_lease_layout)))

  abbrev pub device_lease_list_copy_into : Copier (ListOf lib (DeviceLease lib))
  device_lease_list_copy_into =
      copy_struct device_lease_list_fields
        (lib.list_meta.copy then copy_slice (device_lease_copy_into))

  abbrev pub device_lease_list_deep_copy : Copier (Pointer (ListOf lib (DeviceLease lib)))
  device_lease_list_deep_copy = copy_pointer device_lease_list_copy_into
