-- ===== src/Api/Device.antt =====
-- operator/api/v1alpha1/device_types.go
use android_device_farm.Common.{String, Bool, true, false, Option, List}
use android_device_farm.Go.Time.{Time}
use android_device_farm.Api.Meta.{ObjectMeta, Condition}

-- `unset` is the empty string of a device whose status was never written.
pub data DevicePhase : Type 0 where
  unset provisioning ready leased draining failed : DevicePhase

-- `==` on phases
abbrev pub same_phase : DevicePhase → DevicePhase → Bool
same_phase DevicePhase.unset DevicePhase.unset = true
same_phase DevicePhase.provisioning DevicePhase.provisioning = true
same_phase DevicePhase.ready DevicePhase.ready = true
same_phase DevicePhase.leased DevicePhase.leased = true
same_phase DevicePhase.draining DevicePhase.draining = true
same_phase DevicePhase.failed DevicePhase.failed = true
same_phase _ _ = false

-- `ProviderType` of deviceclass_types.go: the two that the CRD admits, and any other text.
pub data ProviderType : Type 0 where
  emulator physical : ProviderType
  other_provider : String → ProviderType

pub record DeviceSpec : Type 0 where
  pub class_ref : String
  pub pool_ref : String
  pub provider_type : ProviderType
  pub adb_endpoint : String
  pub node_name : String
  pub serial : String

pub record DeviceStatus : Type 0 where
  pub phase : DevicePhase
  pub adb_endpoint : String
  pub ui_endpoint : String
  pub lease_ref : String
  pub last_used_time : Option Time
  pub conditions : List Condition

pub record Device : Type 0 where
  pub metadata : ObjectMeta
  pub spec : DeviceSpec
  pub status : DeviceStatus
