-- ===== src/DeviceController/Ensure.antt =====
-- `ensureService`, `ensurePod` and `ensureRegistration` of device_controller.go.
pub mod Repair
pub mod Quiet
pub mod Owned
use android_device_farm.Common.{
  String, Bool, true, false, ◌||◌, ◌==◌, not, Option, none, some, List, [], ◌∷◌, str_eq,
  if◌then◌else◌,
}
use android_device_farm.Api.Meta.{ObjectKey}
use android_device_farm.Api.Device.{Device}
use android_device_farm.Api.DeviceClass.{DeviceClass}
use android_device_farm.Api.DevicePool.{DevicePool, StfRef}
use android_device_farm.Kube.Objects.{
  Pod, Service, ServicePort, ServiceType, node_port, IntOrString, from_int32, Job,
}
use android_device_farm.Kube.Effect.{Exec, pure, lift, optional, ◌>>=◌, ◌>>◌}
use android_device_farm.Kube.Client.{Env}
use android_device_farm.DeviceController.Objects.{
  adb_proxy_port, adb_service_name, emulator_pod_name, register_job_name, build_pod, build_service,
  build_register_job,
}

abbrev is_node_port : ServiceType → Bool
is_node_port node_port = true
is_node_port _ = false

abbrev is_proxy_port : IntOrString → Bool
is_proxy_port (from_int32 n) = n == adb_proxy_port
is_proxy_port _ = false

-- The port of a service that has one port, set to the proxy's.
abbrev fix_ports : List ServicePort → List ServicePort × Bool
fix_ports (p ∷ []) =
    if is_proxy_port p.target_port
    then (p ∷ [], false)
    else (record p { target_port = from_int32 adb_proxy_port } ∷ [], true)
fix_ports ports = (ports, false)

-- The drift repair of `ensureService`, and `changed`.
unfoldable pub fix_service : Service → Service × Bool
fix_service existing =
    let (ports, port_changed) = fix_ports existing.spec.ports in
    (
      record existing { spec = record (existing.spec) { service_type = node_port; ports = ports } },
      not (is_node_port existing.spec.service_type) || port_changed,
    )

module _ {W : Type 0} (env : Env W) where
  update_if_changed : Service × Bool → Exec W Unit
  update_if_changed (service, changed) =
      if changed then (do env.update_service service; pure tt) else pure tt

  create_owned_service : Device → Exec W Unit
  create_owned_service device = do
    let svc = build_service device
    owned ← lift (env.set_controller_reference "Device" device.metadata svc.metadata)
    env.create_service (record svc { metadata = owned })
    pure tt

  repair_or_create : Device → Option Service → Exec W Unit
  unfolding update_if_changed create_owned_service
  repair_or_create device (some existing) = update_if_changed (fix_service existing)
  repair_or_create device none = create_owned_service device

  unfoldable pub ensure_service : Device → Exec W Unit
  unfolding repair_or_create
  ensure_service device = do
    existing ← optional (
        env.get_service
          (record { namespace = device.metadata.namespace; name = adb_service_name device }))
    repair_or_create device existing

  create_owned_pod : Device → DeviceClass → Exec W Pod
  create_owned_pod device dc = do
    let pod = build_pod device dc
    owned ← lift (env.set_controller_reference "Device" device.metadata pod.metadata)
    env.create_pod (record pod { metadata = owned })

  existing_or_new : Device → DeviceClass → Option Pod → Exec W Pod
  unfolding create_owned_pod
  existing_or_new device dc (some pod) = pure pod
  existing_or_new device dc none = create_owned_pod device dc

  abbrev pub pod_key : Device → ObjectKey
  pod_key device = record { namespace = device.metadata.namespace; name = emulator_pod_name device }

  unfoldable pub ensure_pod : Device → DeviceClass → Exec W Pod
  unfolding existing_or_new
  ensure_pod device dc = do
    found ← optional (env.get_pod (pod_key device))
    existing_or_new device dc found

  create_owned_job : Device → String → String → Exec W Unit
  create_owned_job device adb_host adb_endpoint = do
    let job = build_register_job device adb_host adb_endpoint
    owned ← lift (env.set_controller_reference "Device" device.metadata job.metadata)
    env.create_job (record job { metadata = owned })
    pure tt

  unless_registered : Device → String → String → Option Job → Exec W Unit
  unfolding create_owned_job
  unless_registered device adb_host adb_endpoint (some job) = pure tt
  unless_registered device adb_host adb_endpoint none =
      create_owned_job device adb_host adb_endpoint

  register_at : Device → String → Option StfRef → Exec W Unit
  unfolding unless_registered
  register_at device adb_endpoint none = pure tt
  register_at device adb_endpoint (some stf) = if str_eq stf.adb_host "" then pure tt else do
    job ← optional (
        env.get_job
          (record { namespace = device.metadata.namespace; name = register_job_name device }))
    unless_registered device stf.adb_host adb_endpoint job

  register_in_pool : Device → String → Option DevicePool → Exec W Unit
  unfolding register_at
  register_in_pool device adb_endpoint none = pure tt
  register_in_pool device adb_endpoint (some pool) =
      register_at device adb_endpoint pool.spec.stf_ref

  unfoldable pub ensure_registration : Device → String → Exec W Unit
  unfolding register_in_pool
  ensure_registration device adb_endpoint = if str_eq device.spec.pool_ref "" then pure tt else do
    pool ← optional (
        env.get_pool
          (record { namespace = device.metadata.namespace; name = device.spec.pool_ref }))
    register_in_pool device adb_endpoint pool
