-- ===== src/DeviceController/Reconcile.antt =====
-- `Reconcile` and `reconcilePhysical` of device_controller.go.
pub mod Bindings
pub mod Owned
use android_device_farm.Common.{String, Option, none, some, str_eq, ◌<>◌, if◌then◌else◌, is_none}
use android_device_farm.Api.Meta.{ObjectKey}
use android_device_farm.Api.Device.{
  Device, DevicePhase, ProviderType, emulator, physical, provisioning, ready, leased, failed,
}
use android_device_farm.Api.DeviceClass.{DeviceClass}
use android_device_farm.Kube.Objects.{Pod}
use android_device_farm.Kube.Effect.{Exec, pure, optional, ◌>>=◌, ◌>>◌, ReconcileResult, done}
use android_device_farm.Kube.Client.{Env}
use android_device_farm.DeviceController.Phase.{compute_phase}
use android_device_farm.DeviceController.Annotations.{is_booted}
use android_device_farm.DeviceController.Objects.{adb_address}
use android_device_farm.DeviceController.Ensure.{ensure_service, ensure_pod, ensure_registration}
use android_device_farm.DeviceController.Status.{set_phase}
use android_device_farm.DeviceController.Recovery.{recover_failed, mark_healthy}

-- The phase of a healthy device: `leaseRef` turns Ready into Leased.
abbrev pub bound_phase : Device → String → String → DevicePhase × String × String
bound_phase device reason msg =
    if str_eq device.status.lease_ref ""
    then (ready, reason, msg)
    else (leased, "Leased", "bound to lease " <> device.status.lease_ref)

module _ {W : Type 0} (env : Env W) where
  set_bound_phase : Device → String → DevicePhase × String × String → Exec W ReconcileResult
  set_bound_phase device adb (phase, reason, msg) = set_phase env device phase adb reason msg

  -- The common tail for a device that is up.
  reconcile_healthy : Device → String → String → String → Exec W ReconcileResult
  unfolding set_bound_phase
  reconcile_healthy device adb reason msg = do
    ensure_registration env device adb
    healthy ← mark_healthy env device
    set_bound_phase healthy adb (bound_phase healthy reason msg)

  unfoldable pub reconcile_physical : Device → Exec W ReconcileResult
  unfolding reconcile_healthy
  reconcile_physical device =
      if str_eq device.spec.adb_endpoint ""
      then set_phase env device provisioning "" "AwaitingProvider"
          "waiting for the physical provider to report an adb endpoint"
      else reconcile_healthy device device.spec.adb_endpoint "Connected" "physical device connected"

  reconcile_failed : Device → Pod → String → String → String → Exec W ReconcileResult
  reconcile_failed device pod adb reason msg = do
    (result, updated) ← recover_failed env device pod
    set_phase env updated failed adb reason msg
    pure result

  -- The switch on the computed phase.
  act_on_phase : Device → Pod → String → DevicePhase × String × String → Exec W ReconcileResult
  unfolding reconcile_failed reconcile_healthy
  act_on_phase device pod adb (failed, reason, msg) = reconcile_failed device pod adb reason msg
  act_on_phase device pod adb (ready, reason, msg) = reconcile_healthy device adb reason msg
  act_on_phase device pod adb (phase, reason, msg) = set_phase env device phase adb reason msg

  unfoldable pub reconcile_emulator : Device → DeviceClass → Exec W ReconcileResult
  unfolding act_on_phase
  reconcile_emulator device dc = do
    ensure_service env device
    pod ← ensure_pod env device dc
    act_on_phase device pod (adb_address device)
        (compute_phase pod (is_booted device.metadata.annotations))

  by_provider : ProviderType → Device → DeviceClass → Exec W ReconcileResult
  unfolding reconcile_physical reconcile_emulator
  by_provider physical device dc = reconcile_physical device
  by_provider _ device dc = reconcile_emulator device dc

  by_class : Device → Option DeviceClass → Exec W ReconcileResult
  unfolding by_provider
  by_class device none =
      set_phase env device failed "" "DeviceClassNotFound"
        ("DeviceClass \"" <> device.spec.class_ref <> "\" does not exist")
  by_class device (some dc) = by_provider device.spec.provider_type device dc

  reconcile_found : Option Device → Exec W ReconcileResult
  unfolding by_class
  reconcile_found none = pure done
  reconcile_found (some device) =
      if is_none device.metadata.deletion_timestamp
      then (do
        dc ←
            optional
              (env.get_device_class (record { namespace = ""; name = device.spec.class_ref }))
        by_class device dc)
      else pure done

  unfoldable pub reconcile : ObjectKey → Exec W ReconcileResult
  unfolding reconcile_found
  reconcile key = do device ← optional (env.get_device key); reconcile_found device
