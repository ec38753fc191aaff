-- ===== src/Api/Memory/Copies/Classes.antt =====
-- zz_generated.deepcopy.go: the copies of device classes and of what they hold. `DeepCopyObject` is
-- `DeepCopy`, whose result it returns as an interface.
use android_device_farm.Common.{refl, String, Option}
use android_device_farm.Api.Meta.{Labels}
use android_device_farm.Api.Memory.{
  Ref, Pointer, Slice, Layout, Copier, Fields, plain, assign, in_ref, in_option, in_pair, in_struct,
  in_pointer, in_slice, copy_ref, copy_option, copy_struct, copy_pointer, copy_slice, ◌then◌,
}
use android_device_farm.Api.Memory.Types.{
  Library, AvdSpec, DeviceClassSpec, DeviceClassStatus, DeviceClass, ListOf,
}

abbrev pub avd_spec_fields : Fields AvdSpec (Slice String)
avd_spec_fields = record {
  get = λ s. s.extra_args;
  put = λ s a. record s { extra_args = a };
  get_put = λ s a. refl;
  put_put = λ s a b. refl;
}

abbrev pub avd_spec_layout : Layout AvdSpec
avd_spec_layout = in_struct avd_spec_fields (in_slice plain)

abbrev pub avd_spec_copy_into : Copier AvdSpec
avd_spec_copy_into = copy_struct avd_spec_fields (copy_slice assign)

abbrev pub avd_spec_deep_copy : Copier (Pointer AvdSpec)
avd_spec_deep_copy = copy_pointer avd_spec_copy_into

module _ (lib : Library) where
  abbrev pub device_class_spec_fields : Fields (DeviceClassSpec lib) (
      Pointer AvdSpec
      × (lib.resources.Carrier
          × (Pointer lib.probe.Carrier × (Option (Ref Labels) × Slice lib.toleration.Carrier))))
  device_class_spec_fields = record {
    get = λ s. (s.avd, (s.resources, (s.readiness_probe, (s.node_selector, s.tolerations))));
    put = λ s a. record s {
      avd = a.0;
      resources = a.1.0;
      readiness_probe = a.1.1.0;
      node_selector = a.1.1.1.0;
      tolerations = a.1.1.1.1;
    };
    get_put = λ s a. refl;
    put_put = λ s a b. refl;
  }

  abbrev pub device_class_spec_layout : Layout (DeviceClassSpec lib)
  device_class_spec_layout = in_struct device_class_spec_fields (
      in_pair (in_pointer avd_spec_layout) (
        in_pair lib.resources.layout (
          in_pair (in_pointer lib.probe.layout)
            (in_pair (in_option (in_ref plain)) (in_slice lib.toleration.layout)))))

  abbrev pub device_class_spec_copy_into : Copier (DeviceClassSpec lib)
  device_class_spec_copy_into = copy_struct device_class_spec_fields (
      (copy_pointer avd_spec_copy_into)
      then lib.resources.copy
      then (copy_pointer lib.probe.copy)
      then (copy_option (copy_ref assign))
      then copy_slice lib.toleration.copy)

  abbrev pub device_class_spec_deep_copy : Copier (Pointer (DeviceClassSpec lib))
  device_class_spec_deep_copy = copy_pointer device_class_spec_copy_into

  abbrev pub device_class_status_fields :
      Fields (DeviceClassStatus lib) (Slice lib.condition.Carrier)
  device_class_status_fields = record {
    get = λ s. s.conditions;
    put = λ s a. record s { conditions = a };
    get_put = λ s a. refl;
    put_put = λ s a b. refl;
  }

  abbrev pub device_class_status_layout : Layout (DeviceClassStatus lib)
  device_class_status_layout = in_struct device_class_status_fields (in_slice lib.condition.layout)

  abbrev pub device_class_status_copy_into : Copier (DeviceClassStatus lib)
  device_class_status_copy_into =
      copy_struct device_class_status_fields (copy_slice lib.condition.copy)

  abbrev pub device_class_status_deep_copy : Copier (Pointer (DeviceClassStatus lib))
  device_class_status_deep_copy = copy_pointer device_class_status_copy_into

  abbrev pub device_class_fields :
      Fields
        (DeviceClass lib)
        (lib.object_meta.Carrier × (DeviceClassSpec lib × DeviceClassStatus lib))
  device_class_fields = record {
    get = λ s. (s.metadata, (s.spec, s.status));
    put = λ s a. record s { metadata = a.0; spec = a.1.0; status = a.1.1 };
    get_put = λ s a. refl;
    put_put = λ s a b. refl;
  }

  abbrev pub device_class_layout : Layout (DeviceClass lib)
  device_class_layout = in_struct device_class_fields (
      in_pair lib.object_meta.layout
        (in_pair (device_class_spec_layout) (device_class_status_layout)))

  abbrev pub device_class_copy_into : Copier (DeviceClass lib)
  device_class_copy_into =
      copy_struct device_class_fields
        (lib.object_meta.copy then (device_class_spec_copy_into) then device_class_status_copy_into)

  abbrev pub device_class_deep_copy : Copier (Pointer (DeviceClass lib))
  device_class_deep_copy = copy_pointer device_class_copy_into

  abbrev pub device_class_list_fields :
      Fields (ListOf lib (DeviceClass lib)) (lib.list_meta.Carrier × Slice (DeviceClass lib))
  device_class_list_fields = record {
    get = λ s. (s.metadata, s.items);
    put = λ s a. record s { metadata = a.0; items = a.1 };
    get_put = λ s a. refl;
    put_put = λ s a b. refl;
  }

  abbrev pub device_class_list_layout : Layout (ListOf lib (DeviceClass lib))
  device_class_list_layout =
      in_struct device_class_list_fields
        (in_pair lib.list_meta.layout (in_slice (device_class_layout)))

  abbrev pub device_class_list_copy_into : Copier (ListOf lib (DeviceClass lib))
  device_class_list_copy_into =
      copy_struct device_class_list_fields
        (lib.list_meta.copy then copy_slice (device_class_copy_into))

  abbrev pub device_class_list_deep_copy : Copier (Pointer (ListOf lib (DeviceClass lib)))
  device_class_list_deep_copy = copy_pointer device_class_list_copy_into
