-- ===== src/LeaseController/Release/Lifecycle.antt =====
-- `deviceBoundTo` finds a device that the lease holds; `releaseDevice` writes no lease.
use android_device_farm.Common.{Option, none, some, inl}
use android_device_farm.Api.Device.{Device}
use android_device_farm.Api.DeviceLease.{DeviceLease}
use android_device_farm.Kube.Hoare.{
  Keeps, Keeps-bind, Keeps-optional, Keeps-pure, Triple, Given, Triple-bind, Triple-pure,
  Triple-pre, Keeps-Triple,
}
use android_device_farm.Kube.Client.{Env}
use android_device_farm.Kube.Trace.{
  OnLog, traced, Triple-seeing, Triple-sending_seeing, Keeps-silent, Keeps-sending,
}
use android_device_farm.LeaseController.Lifecycle.{Steps, Held, first-Held}
use android_device_farm.LeaseController.Release.{device_bound_to, free_device, release_device}

module _ {W : Type 0} (env : Env W) (Read : DeviceLease → Type 0) (lease : DeviceLease) where
  pub device_bound_to-Held :
      Triple
        (OnLog (Steps Read))
        (device_bound_to (traced env) lease)
        (Given (OnLog (Steps Read)) (λ d. OnLog (Held Read lease.metadata.name d)))
        (OnLog (Steps Read))
  unfolding device_bound_to
  device_bound_to-Held =
      Triple-bind (Triple-seeing _ _ (λ ds log h. (h, λ d i. inl i)) (λ log h. h))
        λ ds. Triple-pre (first-Held Read lease.metadata.name ds) (Triple-pure _)

  free_device-Steps :
      (dev : Option Device) → Keeps (OnLog (Steps Read)) (free_device (traced env) dev)
  unfolding free_device
  free_device-Steps none = Keeps-pure tt
  free_device-Steps (some dev) = Keeps-bind (Keeps-silent _) λ now.
      Keeps-bind
        (Keeps-Triple
          (Triple-sending_seeing {J = λ _. Steps Read} _ _ _ (λ a log h. h) (λ log h. h)))
        λ updated. Keeps-bind (Keeps-optional (Keeps-sending _ _ λ log h. h)) λ _. Keeps-pure tt

  pub release_device-Steps : Keeps (OnLog (Steps Read)) (release_device (traced env) lease)
  unfolding release_device device_bound_to
  release_device-Steps =
      Keeps-bind
        (Keeps-bind
          (Keeps-Triple (Triple-seeing {J = λ _. Steps Read} _ _ (λ ds log h. h) (λ log h. h)))
          λ ds. Keeps-pure _)
        free_device-Steps
