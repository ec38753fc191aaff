-- ===== src/LeaseController/Pending/Claims.antt =====
-- The device status that `reconcilePending` writes is a claim of a free, ready device.
use android_device_farm.Common.{refl, Option, none, some, inl}
use android_device_farm.Go.Time.{Time}
use android_device_farm.Api.Device.{Device}
use android_device_farm.Api.DeviceLease.{DeviceLease}
use android_device_farm.Kube.Hoare.{
  Keeps, Keeps-bind, Keeps-pure, Triple, Given, Triple-bind, Triple-Keeps, Triple-pure, Triple-pre,
  Triple-frame, Triple-unless_conflict, Keeps-Triple,
}
use android_device_farm.Kube.Client.{Env}
use android_device_farm.Kube.Trace.{
  Traced, traced, Triple-seeing, Triple-sending_seeing, Keeps-silent,
}
use android_device_farm.LeaseController.Select.{is_bound_to, is_free_ready}
use android_device_farm.LeaseController.Status.{write_status}
use android_device_farm.LeaseController.Capacity.Events.{ensure_capacity-Keeps}
use android_device_farm.LeaseController.Release.Frees.{device_bound_to-Holding}
use android_device_farm.LeaseController.Exclusive.{
  Justified, Justified-claim, Keeps-quiet, Justified-capacity, Fair, Holding, Holding-Fair,
  first-Holding,
}
use android_device_farm.LeaseController.Pending.{
  free_ready_device, publish_binding, bound_or_again, used_time, claim, claim_or_wait, bind_device,
  reconcile_pending,
}

module _ {W : Type 0} (env : Env W) (lease : DeviceLease) where
  abbrev Free : Device → Traced W → Type 0
  Free d = Holding lease.metadata.name W is_free_ready d

  abbrev IsFair : Traced W → Type 0
  IsFair = Fair lease.metadata.name W

  free_ready_device-Holding :
      Triple IsFair (free_ready_device (traced env) lease) (Given IsFair Free) IsFair
  unfolding free_ready_device
  free_ready_device-Holding =
      Triple-bind (Triple-seeing _ _ (λ ds log j. (j, λ d i. inl i)) (λ log j. j))
        λ ds. Triple-pre (first-Holding lease.metadata.name W is_free_ready ds) (Triple-pure _)

  publish_binding-Fair : (dev : Device) → Keeps IsFair (publish_binding (traced env) lease dev)
  unfolding publish_binding write_status
  publish_binding-Fair dev = Keeps-bind (Keeps-silent _) λ now.
      Keeps-bind (Keeps-quiet lease.metadata.name _ _ refl)
        λ _. Keeps-bind (Keeps-silent _) λ later. Keeps-pure _

  bound_or_again-Fair : (dev : Option Device) → Keeps IsFair (bound_or_again (traced env) lease dev)
  unfolding bound_or_again
  bound_or_again-Fair none = Keeps-pure _
  bound_or_again-Fair (some dev) = publish_binding-Fair dev

  after_claim-Fair :
      (dev : Option Device)
      → Triple
          (Given IsFair (λ _. IsFair) dev)
          (bound_or_again (traced env) lease dev)
          (λ _. IsFair)
          IsFair
  after_claim-Fair none = Triple-Keeps (bound_or_again-Fair none)
  after_claim-Fair (some dev) = Triple-Keeps (bound_or_again-Fair (some dev))

  used_time-Holding : (dev : Device) (t : Option Time) → Keeps (Free dev) (used_time (traced env) t)
  unfolding used_time
  used_time-Holding dev none = Keeps-silent _
  used_time-Holding dev (some t) = Keeps-pure t

  claim-Fair :
      (dev : Device) → Triple (Free dev) (claim (traced env) lease dev) (λ _. IsFair) IsFair
  unfolding claim
  claim-Fair dev =
      Triple-bind
        (Triple-frame (Holding-Fair lease.metadata.name W is_free_ready dev)
          (used_time-Holding dev dev.status.last_used_time))
        λ used.
          Triple-bind
            (Triple-unless_conflict {Q = λ _. IsFair} (
              Triple-sending_seeing _ _ _
                (λ a log h. Justified-claim lease.metadata.name dev used log h)
                (λ log h. Justified-claim lease.metadata.name dev used log h)))
            λ updated. after_claim-Fair updated

  claim_or_wait-Fair :
      (dev : Option Device)
      → Triple (Given IsFair Free dev) (claim_or_wait (traced env) lease dev) (λ _. IsFair) IsFair
  unfolding claim_or_wait
  claim_or_wait-Fair none = Triple-Keeps (
      Keeps-bind
        (ensure_capacity-Keeps env (Justified lease.metadata.name) lease
          (Justified-capacity lease.metadata.name) (λ reason msg log h. h))
        λ _. Keeps-pure _)
  claim_or_wait-Fair (some dev) = claim-Fair dev

  bind_device-Fair :
      (dev : Option Device)
      → Triple
          (Given IsFair (Holding lease.metadata.name W (is_bound_to lease.metadata.name)) dev)
          (bind_device (traced env) lease dev)
          (λ _. IsFair)
          IsFair
  unfolding bind_device
  bind_device-Fair (some dev) =
      Triple-pre (Holding-Fair lease.metadata.name W (is_bound_to lease.metadata.name) dev)
        (Triple-Keeps (publish_binding-Fair dev))
  bind_device-Fair none = Triple-bind free_ready_device-Holding claim_or_wait-Fair

  pub reconcile_pending-Fair : Keeps IsFair (reconcile_pending (traced env) lease)
  unfolding reconcile_pending
  reconcile_pending-Fair =
      Keeps-Triple (Triple-bind (device_bound_to-Holding env lease) bind_device-Fair)
