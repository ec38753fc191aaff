-- ===== src/LeaseController/Pending/Order.antt =====
-- `reconcilePending` claims a device before it shows the lease as Bound.
use android_device_farm.Common.{refl, ℕ, ◌≤◌, Option, none, some, arith}
use android_device_farm.Go.Time.{Time}
use android_device_farm.Api.Device.{Device}
use android_device_farm.Api.DeviceLease.{DeviceLease}
use android_device_farm.Kube.Client.{Env}
use android_device_farm.Kube.Hoare.{
  Keeps, Keeps-bind, Keeps-pure, Triple-Keeps, Triple-unless_conflict_same,
}
use android_device_farm.Kube.Trace.{traced, Keeps-silent, Keeps-seeing}
use android_device_farm.LeaseController.Order.{
  Before, Advances, Advances-up, Advances-bind, Advances-sending, Advances-sending_seeing,
}
use android_device_farm.LeaseController.Status.{write_status}
use android_device_farm.LeaseController.Capacity.Order.{ensure_capacity-Advances}
use android_device_farm.LeaseController.Release.Order.{device_bound_to-Keeps}
use android_device_farm.LeaseController.Pending.{
  free_ready_device, publish_binding, bound_or_again, used_time, claim, claim_or_wait, bind_device,
  reconcile_pending,
}

module _ {W : Type 0} (env : Env W) (lease : DeviceLease) where
  publish_binding-Advances :
      (n : ℕ) → n ≤ 3 → (dev : Device) → Advances n 4 (publish_binding (traced env) lease dev)
  unfolding publish_binding write_status
  publish_binding-Advances n le dev =
      Advances-bind n n 4 (omega arith) (Triple-Keeps (Keeps-silent _)) λ now.
        Advances-bind n 4 4 (omega arith) (Advances-sending n 3 _ _ refl le)
          λ _. Triple-Keeps (Keeps-bind (Keeps-silent _) λ later. Keeps-pure _)

  bound_or_again-Advances :
      (updated : Option Device) → Advances 2 4 (bound_or_again (traced env) lease updated)
  unfolding bound_or_again
  bound_or_again-Advances none = Advances-up 2 2 4 (omega arith) (Triple-Keeps (Keeps-pure _))
  bound_or_again-Advances (some dev) = publish_binding-Advances 2 (omega arith) dev

  used_time-Keeps : (n : ℕ) (t : Option Time) → Keeps (Before n) (used_time (traced env) t)
  unfolding used_time
  used_time-Keeps n none = Keeps-silent _
  used_time-Keeps n (some t) = Keeps-pure t

  claim_or_wait-Advances :
      (dev : Option Device) → Advances 0 4 (claim_or_wait (traced env) lease dev)
  unfolding claim_or_wait claim
  claim_or_wait-Advances none =
      Advances-bind 0 4 4 (omega arith) (ensure_capacity-Advances env lease)
        λ _. Triple-Keeps (Keeps-pure _)
  claim_or_wait-Advances (some dev) =
      Advances-bind 0 0 4 (omega arith) (Triple-Keeps (used_time-Keeps 0 _)) λ used.
        Advances-bind 0 2 4 (omega arith)
          (Triple-unless_conflict_same (Advances-sending_seeing 0 1 _ _ _ refl (omega arith)))
          bound_or_again-Advances

  bind_device-Advances : (dev : Option Device) → Advances 0 4 (bind_device (traced env) lease dev)
  unfolding bind_device free_ready_device
  bind_device-Advances (some dev) = publish_binding-Advances 0 (omega arith) dev
  bind_device-Advances none =
      Advances-bind 0 0 4 (omega arith)
        (Triple-Keeps (Keeps-bind (Keeps-seeing _ _ λ ds log h. h) λ ds. Keeps-pure _))
        claim_or_wait-Advances

  pub reconcile_pending-Advances : Advances 0 4 (reconcile_pending (traced env) lease)
  unfolding reconcile_pending
  reconcile_pending-Advances =
      Advances-bind 0 0 4 (omega arith) (Triple-Keeps (device_bound_to-Keeps env lease 0))
        bind_device-Advances
