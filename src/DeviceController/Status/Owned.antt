-- ===== src/DeviceController/Status/Owned.antt =====
-- `setPhase` writes the status of its device alone.
use android_device_farm.Common.{◌≡◌, String}
use android_device_farm.Api.Meta.{ObjectKey, key_of}
use android_device_farm.Api.Device.{Device, DevicePhase}
use android_device_farm.Kube.Client.{Env}
use android_device_farm.Kube.Hoare.{Keeps, Keeps-bind, Keeps-pure, Keeps-if, Keeps-Triple}
use android_device_farm.Kube.Trace.{traced, Triple-sending_seeing}
use android_device_farm.DeviceController.Status.{with_phase, write_if_changed, set_phase}
use android_device_farm.DeviceController.Owned.{Logged, Own}

module _ {W : Type 0} (env : Env W) (key : ObjectKey) where
  pub set_phase-Own :
      (d : Device) (phase : DevicePhase) (adb reason msg : String)
      → key_of d.metadata ≡ key
      → Keeps (Own env.machinery key) (set_phase (traced env) d phase adb reason msg)
  unfolding set_phase write_if_changed with_phase
  set_phase-Own d phase adb reason msg named =
      Keeps-if _
        (Keeps-bind
          (Keeps-Triple (
            Triple-sending_seeing {J = λ _. Logged env.machinery key} _ _ _
              (λ a log h. (tt, (named, h))) (λ log h. (named, h))))
          λ _. Keeps-pure _)
        (Keeps-pure _)
