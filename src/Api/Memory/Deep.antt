-- ===== src/Api/Memory/Deep.antt =====
-- The generated copies are deep.
use android_device_farm.Api.Memory.{IsDeep, in_pointer}
use android_device_farm.Api.Memory.Rules.{
  assign-IsDeep, copy_ref-IsDeep, copy_option-IsDeep, copy_struct-IsDeep, then-IsDeep,
  copy_pointer-IsDeep, copy_slice-IsDeep,
}
use android_device_farm.Api.Memory.Types.{Library}
use android_device_farm.Api.Memory.Copies.{
  avd_spec_fields, avd_spec_layout, avd_spec_copy_into, device_class_spec_fields,
  device_class_spec_layout, device_class_spec_copy_into, device_class_status_fields,
  device_class_status_layout, device_class_status_copy_into, device_class_fields,
  device_class_layout, device_class_copy_into, device_class_deep_copy, device_status_fields,
  device_status_layout, device_status_copy_into, device_fields, device_layout, device_copy_into,
  device_deep_copy, device_lease_status_fields, device_lease_status_layout,
  device_lease_status_copy_into, device_lease_fields, device_lease_layout, device_lease_copy_into,
  device_lease_deep_copy, device_pool_spec_fields, device_pool_spec_layout,
  device_pool_spec_copy_into, device_pool_status_fields, device_pool_status_layout,
  device_pool_status_copy_into, device_pool_fields, device_pool_layout, device_pool_copy_into,
  device_pool_deep_copy, device_class_list_fields, device_class_list_layout,
  device_class_list_copy_into, device_class_list_deep_copy, device_lease_list_fields,
  device_lease_list_layout, device_lease_list_copy_into, device_lease_list_deep_copy,
  device_list_fields, device_list_layout, device_list_copy_into, device_list_deep_copy,
  device_pool_list_fields, device_pool_list_layout, device_pool_list_copy_into,
  device_pool_list_deep_copy, stf_ref_layout, stf_ref_copy_into,
}

-- The libraries' copies are deep.
pub record IsDeepLibrary (lib : Library) : Type 0 where
  pub object_meta : IsDeep lib.object_meta.layout lib.object_meta.copy
  pub list_meta : IsDeep lib.list_meta.layout lib.list_meta.copy
  pub time : IsDeep lib.time.layout lib.time.copy
  pub condition : IsDeep lib.condition.layout lib.condition.copy
  pub resources : IsDeep lib.resources.layout lib.resources.copy
  pub probe : IsDeep lib.probe.layout lib.probe.copy
  pub toleration : IsDeep lib.toleration.layout lib.toleration.copy

stf_ref_copy_into-IsDeep : IsDeep stf_ref_layout stf_ref_copy_into
stf_ref_copy_into-IsDeep = assign-IsDeep

avd_spec_copy_into-IsDeep : IsDeep avd_spec_layout avd_spec_copy_into
avd_spec_copy_into-IsDeep = copy_struct-IsDeep (copy_slice-IsDeep assign-IsDeep) avd_spec_fields

device_pool_spec_copy_into-IsDeep : IsDeep device_pool_spec_layout device_pool_spec_copy_into
device_pool_spec_copy_into-IsDeep =
    copy_struct-IsDeep
      (then-IsDeep (copy_slice-IsDeep assign-IsDeep) (copy_pointer-IsDeep stf_ref_copy_into-IsDeep))
      device_pool_spec_fields

module _ (lib : Library) (laws : IsDeepLibrary lib) where
  device_class_spec_copy_into-IsDeep :
      IsDeep (device_class_spec_layout lib) (device_class_spec_copy_into lib)
  device_class_spec_copy_into-IsDeep =
      copy_struct-IsDeep
        (then-IsDeep (copy_pointer-IsDeep avd_spec_copy_into-IsDeep) (
          then-IsDeep laws.resources (
            then-IsDeep (copy_pointer-IsDeep laws.probe) (
              then-IsDeep (copy_option-IsDeep (copy_ref-IsDeep assign-IsDeep))
                (copy_slice-IsDeep laws.toleration)))))
        (device_class_spec_fields lib)

  device_class_status_copy_into-IsDeep :
      IsDeep (device_class_status_layout lib) (device_class_status_copy_into lib)
  device_class_status_copy_into-IsDeep =
      copy_struct-IsDeep (copy_slice-IsDeep laws.condition) (device_class_status_fields lib)

  device_class_copy_into-IsDeep : IsDeep (device_class_layout lib) (device_class_copy_into lib)
  device_class_copy_into-IsDeep =
      copy_struct-IsDeep
        (then-IsDeep laws.object_meta
          (then-IsDeep (device_class_spec_copy_into-IsDeep) (device_class_status_copy_into-IsDeep)))
        (device_class_fields lib)

  device_status_copy_into-IsDeep : IsDeep (device_status_layout lib) (device_status_copy_into lib)
  device_status_copy_into-IsDeep =
      copy_struct-IsDeep
        (then-IsDeep (copy_option-IsDeep laws.time) (copy_slice-IsDeep laws.condition))
        (device_status_fields lib)

  device_copy_into-IsDeep : IsDeep (device_layout lib) (device_copy_into lib)
  device_copy_into-IsDeep =
      copy_struct-IsDeep (then-IsDeep laws.object_meta (device_status_copy_into-IsDeep))
        (device_fields lib)

  device_lease_status_copy_into-IsDeep :
      IsDeep (device_lease_status_layout lib) (device_lease_status_copy_into lib)
  device_lease_status_copy_into-IsDeep =
      copy_struct-IsDeep
        (then-IsDeep (copy_option-IsDeep laws.time)
          (then-IsDeep (copy_option-IsDeep laws.time) (copy_slice-IsDeep laws.condition)))
        (device_lease_status_fields lib)

  device_lease_copy_into-IsDeep : IsDeep (device_lease_layout lib) (device_lease_copy_into lib)
  device_lease_copy_into-IsDeep =
      copy_struct-IsDeep (then-IsDeep laws.object_meta (device_lease_status_copy_into-IsDeep))
        (device_lease_fields lib)

  device_pool_status_copy_into-IsDeep :
      IsDeep (device_pool_status_layout lib) (device_pool_status_copy_into lib)
  device_pool_status_copy_into-IsDeep =
      copy_struct-IsDeep
        (then-IsDeep (copy_slice-IsDeep assign-IsDeep) (copy_slice-IsDeep laws.condition))
        (device_pool_status_fields lib)

  device_pool_copy_into-IsDeep : IsDeep (device_pool_layout lib) (device_pool_copy_into lib)
  device_pool_copy_into-IsDeep =
      copy_struct-IsDeep
        (then-IsDeep laws.object_meta
          (then-IsDeep device_pool_spec_copy_into-IsDeep (device_pool_status_copy_into-IsDeep)))
        (device_pool_fields lib)

  device_class_list_copy_into-IsDeep :
      IsDeep (device_class_list_layout lib) (device_class_list_copy_into lib)
  device_class_list_copy_into-IsDeep =
      copy_struct-IsDeep
        (then-IsDeep laws.list_meta (copy_slice-IsDeep (device_class_copy_into-IsDeep)))
        (device_class_list_fields lib)

  device_lease_list_copy_into-IsDeep :
      IsDeep (device_lease_list_layout lib) (device_lease_list_copy_into lib)
  device_lease_list_copy_into-IsDeep =
      copy_struct-IsDeep
        (then-IsDeep laws.list_meta (copy_slice-IsDeep (device_lease_copy_into-IsDeep)))
        (device_lease_list_fields lib)

  device_list_copy_into-IsDeep : IsDeep (device_list_layout lib) (device_list_copy_into lib)
  device_list_copy_into-IsDeep =
      copy_struct-IsDeep (then-IsDeep laws.list_meta (copy_slice-IsDeep (device_copy_into-IsDeep)))
        (device_list_fields lib)

  device_pool_list_copy_into-IsDeep :
      IsDeep (device_pool_list_layout lib) (device_pool_list_copy_into lib)
  device_pool_list_copy_into-IsDeep =
      copy_struct-IsDeep
        (then-IsDeep laws.list_meta (copy_slice-IsDeep (device_pool_copy_into-IsDeep)))
        (device_pool_list_fields lib)

  -- Where the copies that the Kubernetes libraries make of their types are deep: `DeepCopy` of each root
  -- object and each list of them gives the same value, nil where the original is nil, and every
  -- pointer, slice and map in the copy lies at an address that was allocated for it, so that a write
  -- through the copy never reaches the original.
  pub root_copies-IsDeep :
      IsDeep (in_pointer (device_layout lib)) (device_deep_copy lib)
      × IsDeep (in_pointer (device_class_layout lib)) (device_class_deep_copy lib)
      × IsDeep (in_pointer (device_pool_layout lib)) (device_pool_deep_copy lib)
      × IsDeep (in_pointer (device_lease_layout lib)) (device_lease_deep_copy lib)
      × IsDeep (in_pointer (device_list_layout lib)) (device_list_deep_copy lib)
      × IsDeep (in_pointer (device_class_list_layout lib)) (device_class_list_deep_copy lib)
      × IsDeep (in_pointer (device_pool_list_layout lib)) (device_pool_list_deep_copy lib)
      × IsDeep (in_pointer (device_lease_list_layout lib)) (device_lease_list_deep_copy lib)
  root_copies-IsDeep = (
    copy_pointer-IsDeep device_copy_into-IsDeep,
    copy_pointer-IsDeep device_class_copy_into-IsDeep,
    copy_pointer-IsDeep device_pool_copy_into-IsDeep,
    copy_pointer-IsDeep device_lease_copy_into-IsDeep,
    copy_pointer-IsDeep device_list_copy_into-IsDeep,
    copy_pointer-IsDeep device_class_list_copy_into-IsDeep,
    copy_pointer-IsDeep device_pool_list_copy_into-IsDeep,
    copy_pointer-IsDeep device_lease_list_copy_into-IsDeep,
  )
