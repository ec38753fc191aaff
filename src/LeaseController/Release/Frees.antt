-- ===== src/LeaseController/Release/Frees.antt =====
-- The device status that `releaseDevice` writes is the release of a device that the lease holds.
use android_device_farm.Common.{refl, Option, none, some, inl}
use android_device_farm.Api.Device.{Device}
use android_device_farm.Api.DeviceLease.{DeviceLease}
use android_device_farm.Kube.Hoare.{
  Keeps, Keeps-bind, Keeps-optional, Keeps-pure, Triple, Given, Triple-bind, Triple-Keeps,
  Triple-pure, Triple-pre, Triple-frame, Keeps-Triple,
}
use android_device_farm.Kube.Client.{Env}
use android_device_farm.Kube.Trace.{
  Traced, traced, Triple-seeing, Triple-sending_seeing, Keeps-silent,
}
use android_device_farm.LeaseController.Select.{is_bound_to}
use android_device_farm.LeaseController.Exclusive.{
  Justified-free, Keeps-quiet, Fair, Holding, Holding-Fair, first-Holding,
}
use android_device_farm.LeaseController.Release.{device_bound_to, free_device, release_device}

module _ {W : Type 0} (env : Env W) (lease : DeviceLease) where
  abbrev Owned : Device → Traced W → Type 0
  Owned d = Holding lease.metadata.name W (is_bound_to lease.metadata.name) d

  abbrev IsFair : Traced W → Type 0
  IsFair = Fair lease.metadata.name W

  pub device_bound_to-Holding :
      Triple IsFair (device_bound_to (traced env) lease) (Given IsFair Owned) IsFair
  unfolding device_bound_to
  device_bound_to-Holding =
      Triple-bind (Triple-seeing _ _ (λ ds log j. (j, λ d i. inl i)) (λ log j. j)) λ ds.
        Triple-pre (first-Holding lease.metadata.name W (is_bound_to lease.metadata.name) ds)
          (Triple-pure _)

  free_device-Fair :
      (dev : Option Device)
      → Triple (Given IsFair Owned dev) (free_device (traced env) dev) (λ _. IsFair) IsFair
  unfolding free_device
  free_device-Fair none = Triple-Keeps (Keeps-pure tt)
  free_device-Fair (some dev) =
      Triple-bind
        (Triple-frame (Holding-Fair lease.metadata.name W (is_bound_to lease.metadata.name) dev)
          (Keeps-silent _))
        λ now.
          Triple-bind
            (Triple-sending_seeing _ _ _
              (λ a log h. Justified-free lease.metadata.name dev now log h)
              (λ log h. Justified-free lease.metadata.name dev now log h))
            λ updated. Triple-Keeps (
              Keeps-bind (Keeps-optional (Keeps-quiet lease.metadata.name _ _ refl))
                λ _. Keeps-pure tt)

  pub release_device-Fair : Keeps IsFair (release_device (traced env) lease)
  unfolding release_device
  release_device-Fair = Keeps-Triple (Triple-bind device_bound_to-Holding free_device-Fair)
