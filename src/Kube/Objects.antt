-- ===== src/Kube/Objects.antt =====
-- Pods, services and jobs: the fields of `corev1` and `batchv1` that the operator sets or reads.
use android_device_farm.Common.{ℕ, String, Bool, Option, List}
use android_device_farm.Api.Meta.{ObjectMeta, ConditionStatus, Labels}
use android_device_farm.Api.DeviceClass.{ResourceRequirements, Toleration, Probe}

pub record ContainerPort : Type 0 where
  pub name : String
  pub container_port : ℕ

pub record VolumeMount : Type 0 where
  pub name : String
  pub mount_path : String

-- `privileged` is the field of the container's security context.
pub record Container : Type 0 where
  pub name : String
  pub image : String
  pub image_pull_policy : String
  pub command : List String
  pub args : List String
  pub ports : List ContainerPort
  pub readiness_probe : Option Probe
  pub resources : ResourceRequirements
  pub privileged : Option Bool
  pub volume_mounts : List VolumeMount

pub record Volume : Type 0 where
  pub name : String
  pub host_path : String
  pub host_path_type : String

pub record PodSpec : Type 0 where
  pub node_selector : Labels
  pub tolerations : List Toleration
  pub restart_policy : String
  pub containers : List Container
  pub volumes : List Volume

pub data PodPhase : Type 0 where
  unset pending running succeeded failed unknown : PodPhase

pub data PodConditionType : Type 0 where
  pod_ready : PodConditionType
  other : String → PodConditionType

pub record PodCondition : Type 0 where
  pub condition_type : PodConditionType
  pub status : ConditionStatus

-- `waiting` is the reason of `State.Waiting`, where that is set; `restart_count` is an `int32`.
pub record ContainerStatus : Type 0 where
  pub name : String
  pub waiting : Option String
  pub restart_count : ℕ

pub record PodStatus : Type 0 where
  pub phase : PodPhase
  pub conditions : List PodCondition
  pub container_statuses : List ContainerStatus

pub record Pod : Type 0 where
  pub metadata : ObjectMeta
  pub spec : PodSpec
  pub status : PodStatus

pub data ServiceType : Type 0 where
  unset cluster_ip node_port load_balancer external_name : ServiceType

-- `intstr.IntOrString`
pub data IntOrString : Type 0 where
  from_int32 : ℕ → IntOrString
  from_string : String → IntOrString

pub record ServicePort : Type 0 where
  pub name : String
  pub port : ℕ
  pub target_port : IntOrString

pub record ServiceSpec : Type 0 where
  pub service_type : ServiceType
  pub selector : Labels
  pub ports : List ServicePort

pub record Service : Type 0 where
  pub metadata : ObjectMeta
  pub spec : ServiceSpec

pub record Job : Type 0 where
  pub metadata : ObjectMeta
  pub backoff_limit : ℕ
  pub restart_policy : String
  pub containers : List Container
