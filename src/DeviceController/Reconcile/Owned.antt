-- ===== src/DeviceController/Reconcile/Owned.antt =====
-- A reconcile of a device writes the device and what goes by its name, nothing else.
use android_device_farm.Common.{◌≡◌, String, Option, none, some, [], All}
use android_device_farm.Api.Meta.{ObjectKey, key_of}
use android_device_farm.Api.Device.{Device, DevicePhase, ProviderType, emulator, physical}
use android_device_farm.Api.DeviceClass.{DeviceClass}
use android_device_farm.Kube.Objects.{Pod}
use android_device_farm.Kube.Client.{Env}
use android_device_farm.Kube.Laws.{KeepsKeys}
use android_device_farm.Kube.Hoare.{
  Keeps, Keeps-bind, Keeps-pure, Keeps-optional, Keeps-if, Triple, Given, Triple-bind, Triple-given,
  Triple-Keeps, Triple-optional, Keeps-Triple,
}
use android_device_farm.Kube.Trace.{Traced, traced, Keeps-silent, Triple-seeing_known}
use android_device_farm.DeviceController.Owned.{suffixed, IsDeviceEvent, Logged, Own}
use android_device_farm.DeviceController.Ensure.Owned.{
  ensure_service-Own, ensure_pod-Own, ensure_registration-Own,
}
use android_device_farm.DeviceController.Status.Owned.{set_phase-Own}
use android_device_farm.DeviceController.Recovery.Owned.{recover_failed-Own, mark_healthy-Own}
use android_device_farm.DeviceController.Reconcile.{
  set_bound_phase, reconcile_healthy, reconcile_physical, reconcile_failed, act_on_phase,
  reconcile_emulator, by_provider, by_class, reconcile_found, reconcile,
}

module _ {W : Type 0} (env : Env W) (laws : KeepsKeys env) (key : ObjectKey) where
  abbrev IsOwn : Traced W → Type 0
  IsOwn = Own env.machinery key

  module _ (d : Device) (named : key_of d.metadata ≡ key) where
    reconcile_healthy-Own :
        (adb reason msg : String) → Keeps IsOwn (reconcile_healthy (traced env) d adb reason msg)
    unfolding reconcile_healthy set_bound_phase
    reconcile_healthy-Own adb reason msg =
        Keeps-bind (ensure_registration-Own env laws key d named adb) λ _. Keeps-Triple (
          Triple-bind (mark_healthy-Own env laws key d named)
            λ u. Triple-given λ same. Triple-Keeps (set_phase-Own env key u _ adb _ _ same))

    reconcile_physical-Own : Keeps IsOwn (reconcile_physical (traced env) d)
    unfolding reconcile_physical
    reconcile_physical-Own =
        Keeps-if _ (set_phase-Own env key d _ _ _ _ named) (reconcile_healthy-Own _ _ _)

    reconcile_failed-Own :
        (pod : Pod) (adb reason msg : String)
        → key_of pod.metadata ≡ suffixed key "-emulator"
        → Keeps IsOwn (reconcile_failed (traced env) d pod adb reason msg)
    unfolding reconcile_failed
    reconcile_failed-Own pod adb reason msg k = Keeps-Triple (
        Triple-bind (recover_failed-Own env laws key d named pod k) λ r. Triple-given λ same.
          Triple-Keeps
            (Keeps-bind (set_phase-Own env key r.1 _ adb reason msg same) λ _. Keeps-pure _))

    act_on_phase-Own :
        (pod : Pod) (adb : String) (p : DevicePhase × String × String)
        → key_of pod.metadata ≡ suffixed key "-emulator"
        → Keeps IsOwn (act_on_phase (traced env) d pod adb p)
    unfolding act_on_phase
    act_on_phase-Own pod adb (DevicePhase.failed, reason, msg) k =
        reconcile_failed-Own pod adb reason msg k
    act_on_phase-Own pod adb (DevicePhase.ready, reason, msg) k =
        reconcile_healthy-Own adb reason msg
    act_on_phase-Own pod adb (DevicePhase.unset, reason, msg) k =
        set_phase-Own env key d _ adb reason msg named
    act_on_phase-Own pod adb (DevicePhase.provisioning, reason, msg) k =
        set_phase-Own env key d _ adb reason msg named
    act_on_phase-Own pod adb (DevicePhase.leased, reason, msg) k =
        set_phase-Own env key d _ adb reason msg named
    act_on_phase-Own pod adb (DevicePhase.draining, reason, msg) k =
        set_phase-Own env key d _ adb reason msg named

    reconcile_emulator-Own : (dc : DeviceClass) → Keeps IsOwn (reconcile_emulator (traced env) d dc)
    unfolding reconcile_emulator
    reconcile_emulator-Own dc = Keeps-bind (ensure_service-Own env laws key d named) λ _.
        Keeps-Triple (
          Triple-bind (ensure_pod-Own env laws key d named dc)
            λ pod. Triple-given λ k. Triple-Keeps (act_on_phase-Own pod _ _ k))

    by_provider-Own :
        (dc : DeviceClass) (p : ProviderType) → Keeps IsOwn (by_provider (traced env) p d dc)
    unfolding by_provider
    by_provider-Own dc physical = reconcile_physical-Own
    by_provider-Own dc emulator = reconcile_emulator-Own dc
    by_provider-Own dc (ProviderType.other_provider s) = reconcile_emulator-Own dc

    by_class-Own : (dc : Option DeviceClass) → Keeps IsOwn (by_class (traced env) d dc)
    unfolding by_class
    by_class-Own none = set_phase-Own env key d _ _ _ _ named
    by_class-Own (some dc) = by_provider-Own dc d.spec.provider_type

    found-Own : Keeps IsOwn (reconcile_found (traced env) (some d))
    unfolding reconcile_found
    found-Own =
        Keeps-if _ (Keeps-bind (Keeps-optional (Keeps-silent _)) by_class-Own) (Keeps-pure _)

  reconcile_found-Own :
      (d : Option Device)
      → Triple
          (Given IsOwn (λ a s. IsOwn s × (key_of a.metadata ≡ key)) d)
          (reconcile_found (traced env) d)
          (λ _. IsOwn)
          IsOwn
  unfolding reconcile_found
  reconcile_found-Own none = Triple-Keeps (Keeps-pure _)
  reconcile_found-Own (some d) = Triple-given λ named. Triple-Keeps (found-Own d named)

  reconcile-Own : Keeps IsOwn (reconcile (traced env) key)
  unfolding reconcile
  reconcile-Own = Keeps-Triple (
      Triple-bind
        (Triple-optional (
          Triple-seeing_known {I = Logged env.machinery key} _ _ (λ ds log h. (tt, h))
            (λ w a e. laws.gets_device key w a e)))
        reconcile_found-Own)

module _ {W : Type 0} (env : Env W) where
  -- Where the API server hands back the objects of the keys that it is asked for, and an owner
  -- reference leaves the key of an object as it is: a reconcile of a device, however it ends, writes
  -- the device itself, and the pod, service and registration job that go by its name, each created
  -- under an owner reference to the device. It deletes no pod but that one, and no device, and
  -- writes no lease, no pool and no other device.
  pub reconcile-IsDeviceEvent :
      (key : ObjectKey) (w : W)
      → KeepsKeys env
      → All
          (IsDeviceEvent env.machinery key)
          (reconcile (traced env) key (record { world = w; log = [] })).1.log
  reconcile-IsDeviceEvent key w laws =
      ((reconcile-Own env laws key).run (record { world = w; log = [] })
        (record { logged = tt })).logged
