-- ===== src/DeviceController/Status/Binding.antt =====
-- `setPhase` keeps the binding of its device.
use android_device_farm.Common.{String}
use android_device_farm.Api.Device.{Device, DevicePhase}
use android_device_farm.Kube.Client.{Env}
use android_device_farm.Kube.Hoare.{
  Keeps-pure, Triple, Triple-bind, Triple-pre, Triple-Keeps, Triple-if,
}
use android_device_farm.Kube.Trace.{OnLog, traced, Triple-sending_seeing}
use android_device_farm.DeviceController.Status.{with_phase, write_if_changed, set_phase}
use android_device_farm.DeviceController.Bindings.{Preserved, From, Fine, From-Fine}

module _ {W : Type 0} (env : Env W) where
  pub set_phase-Fine :
      (d : Device) (phase : DevicePhase) (adb reason msg : String)
      → Triple
          (OnLog (From d))
          (set_phase (traced env) d phase adb reason msg)
          (λ _. Fine W)
          (Fine W)
  unfolding set_phase write_if_changed with_phase
  set_phase-Fine d phase adb reason msg =
      Triple-if _
        (Triple-bind
          (Triple-sending_seeing {J = λ _. Preserved} _ _ _ (λ a log h. (h.1, h.0))
            (λ log h. (h.1, h.0)))
          λ _. Triple-Keeps (Keeps-pure _))
        (Triple-pre (From-Fine W d) (Triple-Keeps (Keeps-pure _)))
