-- ===== src/Api/DeviceLease.antt =====
-- operator/api/v1alpha1/devicelease_types.go
use android_device_farm.Common.{ℕ, String, Option, List}
use android_device_farm.Go.Time.{Time}
use android_device_farm.Api.Meta.{ObjectMeta, Condition}

-- `unset` is the empty string of a lease whose status was never written.
pub data LeasePhase : Type 0 where
  unset pending bound expired released failed : LeasePhase

-- `ttl_seconds` is an `int32`.
pub record DeviceLeaseSpec : Type 0 where
  pub class_ref : String
  pub pool_ref : String
  pub requester : String
  pub ttl_seconds : ℕ

pub record DeviceLeaseStatus : Type 0 where
  pub phase : LeasePhase
  pub device_ref : String
  pub adb_endpoint : String
  pub ui_endpoint : String
  pub expires_at : Option Time
  pub last_heartbeat : Option Time
  pub conditions : List Condition

pub record DeviceLease : Type 0 where
  pub metadata : ObjectMeta
  pub spec : DeviceLeaseSpec
  pub status : DeviceLeaseStatus
