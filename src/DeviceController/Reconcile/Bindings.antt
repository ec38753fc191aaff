-- ===== src/DeviceController/Reconcile/Bindings.antt =====
-- The device controller leaves the bindings of devices to leases alone.
use android_device_farm.Common.{String, Option, none, some, []}
use android_device_farm.Api.Meta.{ObjectKey}
use android_device_farm.Api.Device.{Device, DevicePhase, ProviderType, emulator, physical}
use android_device_farm.Api.DeviceClass.{DeviceClass}
use android_device_farm.Kube.Objects.{Pod}
use android_device_farm.Kube.Client.{Env}
use android_device_farm.Kube.Hoare.{
  Keeps, Keeps-pure, Keeps-optional, Triple, Given, Triple-bind, Triple-pure, Triple-pre,
  Triple-frame, Triple-Keeps, Triple-optional, Triple-if, Keeps-Triple,
}
use android_device_farm.Kube.Trace.{OnLog, Traced, traced, Keeps-silent, Triple-seeing}
use android_device_farm.DeviceController.Ensure.Quiet.{
  ensure_service-Keeps, ensure_pod-Keeps, ensure_registration-Keeps,
}
use android_device_farm.DeviceController.Reconcile.{
  set_bound_phase, reconcile_healthy, reconcile_physical, reconcile_failed, act_on_phase,
  reconcile_emulator, by_provider, by_class, reconcile_found, reconcile,
}
use android_device_farm.DeviceController.Bindings.{
  Preserved, From, From-saw, From-quiet, Fine, From-Fine,
}
use android_device_farm.DeviceController.Status.Binding.{set_phase-Fine}
use android_device_farm.DeviceController.Recovery.Binding.{recover_failed-From, mark_healthy-From}

module _ {W : Type 0} (env : Env W) where
  abbrev IsFine : Traced W → Type 0
  IsFine = Fine W

  abbrev Is : Device → Traced W → Type 0
  Is d = OnLog (From d)

  reconcile_healthy-Fine :
      (d : Device) (adb reason msg : String)
      → Triple (Is d) (reconcile_healthy (traced env) d adb reason msg) (λ _. IsFine) IsFine
  unfolding reconcile_healthy set_bound_phase
  reconcile_healthy-Fine d adb reason msg =
      Triple-bind
        (Triple-frame (From-Fine W d) (ensure_registration-Keeps env (From d) (From-quiet d) d adb))
        λ _. Triple-bind (mark_healthy-From env d) λ u. set_phase-Fine env u _ adb _ _

  reconcile_physical-Fine :
      (d : Device) → Triple (Is d) (reconcile_physical (traced env) d) (λ _. IsFine) IsFine
  unfolding reconcile_physical
  reconcile_physical-Fine d =
      Triple-if _ (set_phase-Fine env d _ _ _ _) (reconcile_healthy-Fine d _ _ _)

  reconcile_failed-Fine :
      (d : Device) (pod : Pod) (adb reason msg : String)
      → Triple (Is d) (reconcile_failed (traced env) d pod adb reason msg) (λ _. IsFine) IsFine
  unfolding reconcile_failed
  reconcile_failed-Fine d pod adb reason msg =
      Triple-bind (recover_failed-From env d pod)
        λ r. Triple-bind (set_phase-Fine env r.1 _ adb reason msg) λ _. Triple-pure _

  act_on_phase-Fine :
      (d : Device) (pod : Pod) (adb : String) (p : DevicePhase × String × String)
      → Triple (Is d) (act_on_phase (traced env) d pod adb p) (λ _. IsFine) IsFine
  unfolding act_on_phase
  act_on_phase-Fine d pod adb (DevicePhase.failed, reason, msg) =
      reconcile_failed-Fine d pod adb reason msg
  act_on_phase-Fine d pod adb (DevicePhase.ready, reason, msg) =
      reconcile_healthy-Fine d adb reason msg
  act_on_phase-Fine d pod adb (DevicePhase.unset, reason, msg) =
      set_phase-Fine env d _ adb reason msg
  act_on_phase-Fine d pod adb (DevicePhase.provisioning, reason, msg) =
      set_phase-Fine env d _ adb reason msg
  act_on_phase-Fine d pod adb (DevicePhase.leased, reason, msg) =
      set_phase-Fine env d _ adb reason msg
  act_on_phase-Fine d pod adb (DevicePhase.draining, reason, msg) =
      set_phase-Fine env d _ adb reason msg

  reconcile_emulator-Fine :
      (d : Device) (dc : DeviceClass)
      → Triple (Is d) (reconcile_emulator (traced env) d dc) (λ _. IsFine) IsFine
  unfolding reconcile_emulator
  reconcile_emulator-Fine d dc =
      Triple-bind
        (Triple-frame (From-Fine W d) (ensure_service-Keeps env (From d) (From-quiet d) d))
        λ _.
          Triple-bind
            (Triple-frame (From-Fine W d) (ensure_pod-Keeps env (From d) (From-quiet d) d dc))
            λ pod. act_on_phase-Fine d pod _ _

  by_provider-Fine :
      (d : Device) (dc : DeviceClass) (p : ProviderType)
      → Triple (Is d) (by_provider (traced env) p d dc) (λ _. IsFine) IsFine
  unfolding by_provider
  by_provider-Fine d dc physical = reconcile_physical-Fine d
  by_provider-Fine d dc emulator = reconcile_emulator-Fine d dc
  by_provider-Fine d dc (ProviderType.other_provider s) = reconcile_emulator-Fine d dc

  by_class-Fine :
      (d : Device) (dc : Option DeviceClass)
      → Triple (Is d) (by_class (traced env) d dc) (λ _. IsFine) IsFine
  unfolding by_class
  by_class-Fine d none = set_phase-Fine env d _ _ _ _
  by_class-Fine d (some dc) = by_provider-Fine d dc d.spec.provider_type

  reconcile_found-Fine :
      (d : Option Device)
      → Triple (Given IsFine Is d) (reconcile_found (traced env) d) (λ _. IsFine) IsFine
  unfolding reconcile_found
  reconcile_found-Fine none = Triple-Keeps (Keeps-pure _)
  reconcile_found-Fine (some d) =
      Triple-if _
        (Triple-bind (Triple-frame (From-Fine W d) (Keeps-optional (Keeps-silent _)))
          λ dc. by_class-Fine d dc)
        (Triple-pre (From-Fine W d) (Triple-Keeps (Keeps-pure _)))

  reconcile-Fine : (key : ObjectKey) → Keeps IsFine (reconcile (traced env) key)
  unfolding reconcile
  reconcile-Fine key = Keeps-Triple (
      Triple-bind (Triple-optional (Triple-seeing {J = From} _ _ From-saw (λ log h. h)))
        reconcile_found-Fine)

  -- A reconcile of a device, whatever the API server answers and whatever others do to the cluster
  -- meanwhile, sends a device status only over a device that it read before, under its key and
  -- resource version, and with the lease reference and the time of last use that it read.
  pub reconcile-Preserved :
      (key : ObjectKey) (w : W)
      → Preserved (reconcile (traced env) key (record { world = w; log = [] })).1.log
  reconcile-Preserved key w =
      ((reconcile-Fine key).run (record { world = w; log = [] }) (record { logged = tt })).logged
