-- ===== src/Api/Memory/Copies/Pools.antt =====
-- zz_generated.deepcopy.go: the copies of device pools and of what they hold. `DeepCopyObject` is
-- `DeepCopy`, whose result it returns as an interface.
use android_device_farm.Common.{refl}
use android_device_farm.Api.DevicePool.{PoolClass, StfRef, ClassCounts}
use android_device_farm.Api.Memory.{
  Pointer, Slice, Layout, Copier, Fields, plain, assign, in_pair, in_struct, in_pointer, in_slice,
  copy_struct, copy_pointer, copy_slice, ◌then◌,
}
use android_device_farm.Api.Memory.Types.{
  Library, DevicePoolSpec, DevicePoolStatus, DevicePool, ListOf,
}

-- A struct without references.
abbrev pub class_counts_copy_into : Copier ClassCounts
class_counts_copy_into = assign

abbrev pub class_counts_deep_copy : Copier (Pointer ClassCounts)
class_counts_deep_copy = copy_pointer class_counts_copy_into

-- A struct without references.
abbrev pub pool_class_copy_into : Copier PoolClass
pool_class_copy_into = assign

abbrev pub pool_class_deep_copy : Copier (Pointer PoolClass)
pool_class_deep_copy = copy_pointer pool_class_copy_into

-- A struct without references.
abbrev pub stf_ref_copy_into : Copier StfRef
stf_ref_copy_into = assign

abbrev pub stf_ref_layout : Layout StfRef
stf_ref_layout = plain

abbrev pub stf_ref_deep_copy : Copier (Pointer StfRef)
stf_ref_deep_copy = copy_pointer stf_ref_copy_into

abbrev pub device_pool_spec_fields : Fields DevicePoolSpec (Slice PoolClass × Pointer StfRef)
device_pool_spec_fields = record {
  get = λ s. (s.classes, s.stf_ref);
  put = λ s a. record s { classes = a.0; stf_ref = a.1 };
  get_put = λ s a. refl;
  put_put = λ s a b. refl;
}

abbrev pub device_pool_spec_layout : Layout DevicePoolSpec
device_pool_spec_layout =
    in_struct device_pool_spec_fields (in_pair (in_slice plain) (in_pointer stf_ref_layout))

abbrev pub device_pool_spec_copy_into : Copier DevicePoolSpec
device_pool_spec_copy_into =
    copy_struct device_pool_spec_fields ((copy_slice assign) then copy_pointer stf_ref_copy_into)

abbrev pub device_pool_spec_deep_copy : Copier (Pointer DevicePoolSpec)
device_pool_spec_deep_copy = copy_pointer device_pool_spec_copy_into

module _ (lib : Library) where
  abbrev pub device_pool_status_fields :
      Fields (DevicePoolStatus lib) (Slice ClassCounts × Slice lib.condition.Carrier)
  device_pool_status_fields = record {
    get = λ s. (s.per_class, s.conditions);
    put = λ s a. record s { per_class = a.0; conditions = a.1 };
    get_put = λ s a. refl;
    put_put = λ s a b. refl;
  }

  abbrev pub device_pool_status_layout : Layout (DevicePoolStatus lib)
  device_pool_status_layout =
      in_struct device_pool_status_fields (in_pair (in_slice plain) (in_slice lib.condition.layout))

  abbrev pub device_pool_status_copy_into : Copier (DevicePoolStatus lib)
  device_pool_status_copy_into =
      copy_struct device_pool_status_fields ((copy_slice assign) then copy_slice lib.condition.copy)

  abbrev pub device_pool_status_deep_copy : Copier (Pointer (DevicePoolStatus lib))
  device_pool_status_deep_copy = copy_pointer device_pool_status_copy_into

  abbrev pub device_pool_fields :
      Fields (DevicePool lib) (lib.object_meta.Carrier × (DevicePoolSpec × DevicePoolStatus lib))
  device_pool_fields = record {
    get = λ s. (s.metadata, (s.spec, s.status));
    put = λ s a. record s { metadata = a.0; spec = a.1.0; status = a.1.1 };
    get_put = λ s a. refl;
    put_put = λ s a b. refl;
  }

  abbrev pub device_pool_layout : Layout (DevicePool lib)
  device_pool_layout =
      in_struct device_pool_fields (
        in_pair lib.object_meta.layout
          (in_pair device_pool_spec_layout (device_pool_status_layout)))

  abbrev pub device_pool_copy_into : Copier (DevicePool lib)
  device_pool_copy_into =
      copy_struct device_pool_fields
        (lib.object_meta.copy then device_pool_spec_copy_into then device_pool_status_copy_into)

  abbrev pub device_pool_deep_copy : Copier (Pointer (DevicePool lib))
  device_pool_deep_copy = copy_pointer device_pool_copy_into

  abbrev pub device_pool_list_fields :
      Fields (ListOf lib (DevicePool lib)) (lib.list_meta.Carrier × Slice (DevicePool lib))
  device_pool_list_fields = record {
    get = λ s. (s.metadata, s.items);
    put = λ s a. record s { metadata = a.0; items = a.1 };
    get_put = λ s a. refl;
    put_put = λ s a b. refl;
  }

  abbrev pub device_pool_list_layout : Layout (ListOf lib (DevicePool lib))
  device_pool_list_layout =
      in_struct device_pool_list_fields
        (in_pair lib.list_meta.layout (in_slice (device_pool_layout)))

  abbrev pub device_pool_list_copy_into : Copier (ListOf lib (DevicePool lib))
  device_pool_list_copy_into =
      copy_struct device_pool_list_fields
        (lib.list_meta.copy then copy_slice (device_pool_copy_into))

  abbrev pub device_pool_list_deep_copy : Copier (Pointer (ListOf lib (DevicePool lib)))
  device_pool_list_deep_copy = copy_pointer device_pool_list_copy_into
