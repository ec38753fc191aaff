-- ===== src/Api/DeviceClass.antt =====
-- operator/api/v1alpha1/deviceclass_types.go, with the parts of `corev1` that a class carries.
use android_device_farm.Common.{ℕ, String, Option, List}
use android_device_farm.Api.Meta.{ObjectMeta, Condition, Labels}
use android_device_farm.Api.Device.{ProviderType}

pub record AvdSpec : Type 0 where
  pub skin : String
  pub density : ℕ
  pub extra_args : List String

-- `corev1.ResourceRequirements`, `corev1.Toleration` and `corev1.Probe`
pub record ResourceRequirements : Type 0 where
  pub requests : Labels
  pub limits : Labels

pub record Toleration : Type 0 where
  pub key : String
  pub operator : String
  pub value : String
  pub effect : String

-- A port by number or by name.
pub data ProbePort : Type 0 where
  numbered : ℕ → ProbePort
  named_port : String → ProbePort

pub record HttpGet : Type 0 where
  pub host : String
  pub path : String
  pub port : ProbePort
  pub scheme : String
  pub headers : Labels

pub data ProbeHandler : Type 0 where
  no_handler : ProbeHandler
  exec : List String → ProbeHandler
  http_get : HttpGet → ProbeHandler
  tcp_socket : String → ProbePort → ProbeHandler
  grpc : ℕ → Option String → ProbeHandler

-- A number that is not set is 0.
pub record Probe : Type 0 where
  pub handler : ProbeHandler
  pub initial_delay_seconds : ℕ
  pub period_seconds : ℕ
  pub timeout_seconds : ℕ
  pub success_threshold : ℕ
  pub failure_threshold : ℕ
  pub termination_grace_period_seconds : Option ℕ

pub record DeviceClassSpec : Type 0 where
  pub provider_type : ProviderType
  pub image : String
  pub api_level : ℕ
  pub arch : String
  pub avd : Option AvdSpec
  pub resources : ResourceRequirements
  pub readiness_probe : Option Probe
  pub node_selector : Labels
  pub tolerations : List Toleration

pub record DeviceClass : Type 0 where
  pub metadata : ObjectMeta
  pub spec : DeviceClassSpec
  pub conditions : List Condition
