-- ===== src/LeaseController/Release/Order.antt =====
-- `releaseDevice` frees the device, then deletes its pod.
use android_device_farm.Common.{refl, ℕ, Option, none, some, arith}
use android_device_farm.Api.Device.{Device}
use android_device_farm.Api.DeviceLease.{DeviceLease}
use android_device_farm.Kube.Client.{Env}
use android_device_farm.Kube.Hoare.{
  Keeps, Keeps-bind, Keeps-pure, Triple-Keeps, Triple-optional_same,
}
use android_device_farm.Kube.Trace.{traced, Keeps-silent, Keeps-seeing}
use android_device_farm.LeaseController.Order.{
  Before, Advances, Advances-up, Advances-bind, Advances-sending, Advances-sending_seeing,
}
use android_device_farm.LeaseController.Release.{device_bound_to, free_device, release_device}

module _ {W : Type 0} (env : Env W) (lease : DeviceLease) where
  pub device_bound_to-Keeps : (n : ℕ) → Keeps (Before n) (device_bound_to (traced env) lease)
  unfolding device_bound_to
  device_bound_to-Keeps n = Keeps-bind (Keeps-seeing _ _ λ ds log h. h) λ ds. Keeps-pure _

  free_device-Advances : (dev : Option Device) → Advances 0 3 (free_device (traced env) dev)
  unfolding free_device
  free_device-Advances none = Advances-up 0 0 3 (omega arith) (Triple-Keeps (Keeps-pure tt))
  free_device-Advances (some dev) =
      Advances-bind 0 0 3 (omega arith) (Triple-Keeps (Keeps-silent _)) λ now.
        Advances-bind 0 2 3 (omega arith) (Advances-sending_seeing 0 1 _ _ _ refl (omega arith))
          λ updated.
            Advances-bind 2 3 3 (omega arith)
              (Triple-optional_same (Advances-sending 2 2 _ _ refl (omega arith)))
              λ _. Triple-Keeps (Keeps-pure tt)

  pub release_device-Advances : Advances 0 3 (release_device (traced env) lease)
  unfolding release_device
  release_device-Advances =
      Advances-bind 0 0 3 (omega arith) (Triple-Keeps (device_bound_to-Keeps 0))
        free_device-Advances
