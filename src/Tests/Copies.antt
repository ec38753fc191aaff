-- ===== src/Tests/Copies.antt =====
-- Copies over a library whose types are slices of text, and the copy of a lease.
use android_device_farm.Common.{◌≡◌, refl, ℕ, ◌+◌, String, none, some, [], ◌∷◌}
use android_device_farm.Api.DeviceLease.{LeasePhase}
use android_device_farm.Api.Memory.{
  Ref, Slice, IsDeep, plain, assign, in_pointer, in_slice, copy_slice,
}
use android_device_farm.Api.Memory.Rules.{assign-IsDeep, copy_slice-IsDeep}
use android_device_farm.Api.Memory.Types.{Foreign, Library, DeviceLease}
use android_device_farm.Api.Memory.Copies.{
  device_layout, device_deep_copy, device_class_layout, device_class_deep_copy, device_pool_layout,
  device_pool_deep_copy, device_lease_layout, device_lease_deep_copy, device_list_layout,
  device_list_deep_copy, device_class_list_layout, device_class_list_deep_copy,
  device_pool_list_layout, device_pool_list_deep_copy, device_lease_list_layout,
  device_lease_list_deep_copy,
}
use android_device_farm.Api.Memory.Deep.{IsDeepLibrary, root_copies-IsDeep}

abbrev texts : Foreign
texts = record { Carrier = Slice String; layout = in_slice plain; copy = copy_slice assign }

abbrev library : Library
library = record {
  object_meta = texts;
  list_meta = texts;
  time = texts;
  condition = texts;
  resources = texts;
  probe = texts;
  toleration = texts;
}

texts-IsDeep : IsDeep texts.layout texts.copy
texts-IsDeep = copy_slice-IsDeep assign-IsDeep

laws : IsDeepLibrary library
laws = record {
  object_meta = texts-IsDeep;
  list_meta = texts-IsDeep;
  time = texts-IsDeep;
  condition = texts-IsDeep;
  resources = texts-IsDeep;
  probe = texts-IsDeep;
  toleration = texts-IsDeep;
}

root_copies-IsDeep_example :
    IsDeep (in_pointer (device_layout library)) (device_deep_copy library)
    × IsDeep (in_pointer (device_class_layout library)) (device_class_deep_copy library)
    × IsDeep (in_pointer (device_pool_layout library)) (device_pool_deep_copy library)
    × IsDeep (in_pointer (device_lease_layout library)) (device_lease_deep_copy library)
    × IsDeep (in_pointer (device_list_layout library)) (device_list_deep_copy library)
    × IsDeep (in_pointer (device_class_list_layout library)) (device_class_list_deep_copy library)
    × IsDeep (in_pointer (device_pool_list_layout library)) (device_pool_list_deep_copy library)
    × IsDeep (in_pointer (device_lease_list_layout library)) (device_lease_list_deep_copy library)
root_copies-IsDeep_example = root_copies-IsDeep library laws

-- A lease at address `a`, with its metadata and its heartbeat at the two behind it.
abbrev lease_at : ℕ → Ref (DeviceLease library)
lease_at a = record {
  address = a;
  content = record {
    type_meta = record { kind = "DeviceLease"; api_version = "farm.example.com/v1alpha1" };
    metadata = some (record { address = a + 1; content = "ci-7" ∷ [] });
    spec = record { class_ref = "phone"; pool_ref = ""; requester = "ci"; ttl_seconds = 300 };
    status = record {
      phase = LeasePhase.bound;
      device_ref = "phone-1";
      adb_endpoint = "";
      ui_endpoint = "";
      expires_at = none;
      last_heartbeat = some (some (record { address = a + 2; content = "12:00" ∷ [] }));
      conditions = none;
    };
  };
}

lease_copied : device_lease_deep_copy library (some (lease_at 1)) 4 ≡ (some (lease_at 4), 7)
lease_copied = refl
