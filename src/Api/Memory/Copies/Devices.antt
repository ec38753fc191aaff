-- ===== src/Api/Memory/Copies/Devices.antt =====
-- zz_generated.deepcopy.go: the copies of devices and of what they hold. `DeepCopyObject` is
-- `DeepCopy`, whose result it returns as an interface.
use android_device_farm.Common.{refl, Option}
use android_device_farm.Api.Device.{DeviceSpec}
use android_device_farm.Api.Memory.{
  Pointer, Slice, Layout, Copier, Fields, assign, in_option, in_pair, in_struct, in_slice,
  copy_option, copy_struct, copy_pointer, copy_slice, ◌then◌,
}
use android_device_farm.Api.Memory.Types.{Library, DeviceStatus, Device, ListOf}

-- A struct without references.
abbrev pub device_spec_copy_into : Copier DeviceSpec
device_spec_copy_into = assign

abbrev pub device_spec_deep_copy : Copier (Pointer DeviceSpec)
device_spec_deep_copy = copy_pointer device_spec_copy_into

module _ (lib : Library) where
  abbrev pub device_status_fields :
      Fields (DeviceStatus lib) (Option lib.time.Carrier × Slice lib.condition.Carrier)
  device_status_fields = record {
    get = λ s. (s.last_used_time, s.conditions);
    put = λ s a. record s { last_used_time = a.0; conditions = a.1 };
    get_put = λ s a. refl;
    put_put = λ s a b. refl;
  }

  abbrev pub device_status_layout : Layout (DeviceStatus lib)
  device_status_layout =
      in_struct device_status_fields
        (in_pair (in_option lib.time.layout) (in_slice lib.condition.layout))

  abbrev pub device_status_copy_into : Copier (DeviceStatus lib)
  device_status_copy_into =
      copy_struct device_status_fields
        ((copy_option lib.time.copy) then copy_slice lib.condition.copy)

  abbrev pub device_status_deep_copy : Copier (Pointer (DeviceStatus lib))
  device_status_deep_copy = copy_pointer device_status_copy_into

  abbrev pub device_fields : Fields (Device lib) (lib.object_meta.Carrier × DeviceStatus lib)
  device_fields = record {
    get = λ s. (s.metadata, s.status);
    put = λ s a. record s { metadata = a.0; status = a.1 };
    get_put = λ s a. refl;
    put_put = λ s a b. refl;
  }

  abbrev pub device_layout : Layout (Device lib)
  device_layout = in_struct device_fields (in_pair lib.object_meta.layout (device_status_layout))

  abbrev pub device_copy_into : Copier (Device lib)
  device_copy_into = copy_struct device_fields (lib.object_meta.copy then device_status_copy_into)

  abbrev pub device_deep_copy : Copier (Pointer (Device lib))
  device_deep_copy = copy_pointer device_copy_into

  abbrev pub device_list_fields :
      Fields (ListOf lib (Device lib)) (lib.list_meta.Carrier × Slice (Device lib))
  device_list_fields = record {
    get = λ s. (s.metadata, s.items);
    put = λ s a. record s { metadata = a.0; items = a.1 };
    get_put = λ s a. refl;
    put_put = λ s a b. refl;
  }

  abbrev pub device_list_layout : Layout (ListOf lib (Device lib))
  device_list_layout =
      in_struct device_list_fields (in_pair lib.list_meta.layout (in_slice (device_layout)))

  abbrev pub device_list_copy_into : Copier (ListOf lib (Device lib))
  device_list_copy_into =
      copy_struct device_list_fields (lib.list_meta.copy then copy_slice (device_copy_into))

  abbrev pub device_list_deep_copy : Copier (Pointer (ListOf lib (Device lib)))
  device_list_deep_copy = copy_pointer device_list_copy_into
