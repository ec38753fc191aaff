-- ===== src/Kube/Client.antt =====
-- The parameter that stands for the API server and the libraries: `client.Client` of
-- controller-runtime by kind and verb, helpers of apimachinery and controller-runtime, and the
-- clock. A write hands back the object as the server returns it, which the client library stores
-- in the caller's variable.
use android_device_farm.Common.{String, Bool, Option, List}
use android_device_farm.Go.Time.{Time}
use android_device_farm.Api.Meta.{ObjectMeta, ObjectKey, Condition}
use android_device_farm.Api.Device.{Device}
use android_device_farm.Api.DeviceClass.{DeviceClass}
use android_device_farm.Api.DevicePool.{DevicePool}
use android_device_farm.Api.DeviceLease.{DeviceLease}
use android_device_farm.Kube.Objects.{Pod, Service, Job}
use android_device_farm.Kube.Effect.{Exec, Result}

-- `client.InNamespace`, and the one label of `client.MatchingLabels` where it is given.
pub record ListOptions : Type 0 where
  pub namespace : String
  pub label : Option (String × String)

pub record Client (W : Type 0) : Type 0 where
  pub get_device : ObjectKey → Exec W Device
  pub list_devices : ListOptions → Exec W (List Device)
  pub create_device : Device → Exec W Device
  pub update_device : Device → Exec W Device
  pub update_device_status : Device → Exec W Device
  pub delete_device : Device → Exec W Unit
  pub get_device_class : ObjectKey → Exec W DeviceClass
  pub get_pool : ObjectKey → Exec W DevicePool
  pub list_pools : ListOptions → Exec W (List DevicePool)
  pub update_pool_status : DevicePool → Exec W DevicePool
  pub get_lease : ObjectKey → Exec W DeviceLease
  pub list_leases : ListOptions → Exec W (List DeviceLease)
  pub create_lease : DeviceLease → Exec W DeviceLease
  pub update_lease : DeviceLease → Exec W DeviceLease
  pub update_lease_status : DeviceLease → Exec W DeviceLease
  -- `Status().Patch(patched, MergeFrom(base))`, base first
  pub patch_lease_status : DeviceLease → DeviceLease → Exec W DeviceLease
  pub delete_lease : ObjectKey → Exec W Unit
  pub get_pod : ObjectKey → Exec W Pod
  pub create_pod : Pod → Exec W Pod
  pub delete_pod : ObjectKey → Exec W Unit
  pub get_service : ObjectKey → Exec W Service
  pub create_service : Service → Exec W Service
  pub update_service : Service → Exec W Service
  pub get_job : ObjectKey → Exec W Job
  pub create_job : Job → Exec W Job
  -- `time.Now()` and `metav1.Now()`
  pub now : Exec W Time

-- Library functions with no effect.
pub record Machinery : Type 0 where
  -- `meta.SetStatusCondition`: the new list, and whether it changed
  pub set_status_condition : List Condition → Condition → List Condition × Bool
  -- `ctrl.SetControllerReference`: the kind and metadata of the owner, then the owned object's
  pub set_controller_reference : String → ObjectMeta → ObjectMeta → Result ObjectMeta
  pub contains_finalizer : ObjectMeta → String → Bool
  pub add_finalizer : ObjectMeta → String → ObjectMeta
  pub remove_finalizer : ObjectMeta → String → ObjectMeta
  -- `t.Format(time.RFC3339)` and `time.Parse(time.RFC3339, s)`
  pub format_rfc3339 : Time → String
  pub parse_rfc3339 : String → Option Time

pub record Env (W : Type 0) : Type 0 where
  pub client : Client W
  pub open client use *
  pub machinery : Machinery
  pub open machinery use *
