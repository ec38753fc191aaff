-- ===== src/Api/DevicePool.antt =====
-- operator/api/v1alpha1/devicepool_types.go. The counts and bounds are `int32`.
use android_device_farm.Common.{ℕ, String, Option, List}
use android_device_farm.Api.Meta.{ObjectMeta, Condition}

-- `unset` is the empty string.
pub data EvictionPolicy : Type 0 where
  unset lru_idle never : EvictionPolicy

pub record PoolClass : Type 0 where
  pub name : String
  pub min_warm : ℕ
  pub max_warm : ℕ

pub record StfRef : Type 0 where
  pub url : String
  pub adb_host : String

pub record DevicePoolSpec : Type 0 where
  pub classes : List PoolClass
  pub max_concurrent : ℕ
  pub eviction_policy : EvictionPolicy
  pub stf_ref : Option StfRef

pub record ClassCounts : Type 0 where
  pub class : String
  pub total : ℕ
  pub ready : ℕ
  pub leased : ℕ
  pub provisioning : ℕ

pub record DevicePoolStatus : Type 0 where
  pub per_class : List ClassCounts
  pub conditions : List Condition

pub record DevicePool : Type 0 where
  pub metadata : ObjectMeta
  pub spec : DevicePoolSpec
  pub status : DevicePoolStatus
