-- ===== src/Api/Memory/Types.antt =====
-- The types of operator/api/v1alpha1 as they lie in memory. Structs without references are those of
-- the other files; types of the Kubernetes libraries are parameters.
use android_device_farm.Common.{ℕ, String, Option}
use android_device_farm.Api.Meta.{Labels}
use android_device_farm.Api.Device.{DevicePhase, ProviderType, DeviceSpec}
use android_device_farm.Api.DevicePool.{EvictionPolicy, PoolClass, StfRef, ClassCounts}
use android_device_farm.Api.DeviceLease.{LeasePhase, DeviceLeaseSpec}
use android_device_farm.Api.Memory.{Ref, Pointer, Slice, Layout, Copier}

-- A type of a library, with its `DeepCopyInto`.
pub record Foreign : Type 1 where
  pub Carrier : Type 0
  pub layout : Layout Carrier
  pub copy : Copier Carrier

-- `time` is what a `*metav1.Time` that is not nil points to, with the pointer and its `DeepCopy`.
pub record Library : Type 1 where
  pub object_meta : Foreign
  pub list_meta : Foreign
  pub time : Foreign
  pub condition : Foreign
  pub resources : Foreign
  pub probe : Foreign
  pub toleration : Foreign

-- `metav1.TypeMeta`
pub record TypeMeta : Type 0 where
  pub kind : String
  pub api_version : String

pub record AvdSpec : Type 0 where
  pub skin : String
  pub density : ℕ
  pub extra_args : Slice String

pub record DevicePoolSpec : Type 0 where
  pub classes : Slice PoolClass
  pub max_concurrent : ℕ
  pub eviction_policy : EvictionPolicy
  pub stf_ref : Pointer StfRef

module _ (lib : Library) where
  pub record DeviceStatus : Type 0 where
    pub phase : DevicePhase
    pub adb_endpoint : String
    pub ui_endpoint : String
    pub lease_ref : String
    pub last_used_time : Option lib.time.Carrier
    pub conditions : Slice lib.condition.Carrier

  pub record DeviceClassSpec : Type 0 where
    pub provider_type : ProviderType
    pub image : String
    pub api_level : ℕ
    pub arch : String
    pub avd : Pointer AvdSpec
    pub resources : lib.resources.Carrier
    pub readiness_probe : Pointer lib.probe.Carrier
    pub node_selector : Option (Ref Labels)
    pub tolerations : Slice lib.toleration.Carrier

  pub record DeviceClassStatus : Type 0 where
    pub conditions : Slice lib.condition.Carrier

  pub record DeviceLeaseStatus : Type 0 where
    pub phase : LeasePhase
    pub device_ref : String
    pub adb_endpoint : String
    pub ui_endpoint : String
    pub expires_at : Option lib.time.Carrier
    pub last_heartbeat : Option lib.time.Carrier
    pub conditions : Slice lib.condition.Carrier

  pub record DevicePoolStatus : Type 0 where
    pub per_class : Slice ClassCounts
    pub conditions : Slice lib.condition.Carrier

  pub record Device : Type 0 where
    pub type_meta : TypeMeta
    pub metadata : lib.object_meta.Carrier
    pub spec : DeviceSpec
    pub status : DeviceStatus

  pub record DeviceClass : Type 0 where
    pub type_meta : TypeMeta
    pub metadata : lib.object_meta.Carrier
    pub spec : DeviceClassSpec
    pub status : DeviceClassStatus

  pub record DeviceLease : Type 0 where
    pub type_meta : TypeMeta
    pub metadata : lib.object_meta.Carrier
    pub spec : DeviceLeaseSpec
    pub status : DeviceLeaseStatus

  pub record DevicePool : Type 0 where
    pub type_meta : TypeMeta
    pub metadata : lib.object_meta.Carrier
    pub spec : DevicePoolSpec
    pub status : DevicePoolStatus

  -- `DeviceList` and its like.
  pub record ListOf (Item : Type 0) : Type 0 where
    pub type_meta : TypeMeta
    pub metadata : lib.list_meta.Carrier
    pub items : Slice Item
