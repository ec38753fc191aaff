-- ===== src/LeaseController/Bound/Order.antt =====
-- `reconcileBound` releases the device before it shows the lease as Expired.
use android_device_farm.Common.{ℕ, Bool, true, false, Option, none, some, arith}
use android_device_farm.Go.Time.{Time, add_time}
use android_device_farm.Api.DeviceLease.{DeviceLease}
use android_device_farm.Kube.Client.{Env}
use android_device_farm.Kube.Hoare.{
  Keeps, Keeps-bind, Keeps-pure, Keeps-tried, Keeps-if, Triple-Keeps, Triple-if,
}
use android_device_farm.Kube.Trace.{traced, Keeps-silent, Keeps-seeing}
use android_device_farm.LeaseController.Order.{Before, Advances, Advances-up, Advances-bind}
use android_device_farm.LeaseController.Status.Order.{write_status-Advances}
use android_device_farm.LeaseController.Release.Order.{release_device-Advances}
use android_device_farm.LeaseController.Status.{ttl_duration}
use android_device_farm.LeaseController.Bound.{
  beating, device_health, heartbeat_or_now, expire, write_if_changed, keep_alive, reconcile_bound,
}

module _ {W : Type 0} (env : Env W) where
  write_if_changed-Advances :
      (r : DeviceLease × Bool) → Advances 0 4 (write_if_changed (traced env) r)
  unfolding write_if_changed
  write_if_changed-Advances (lease, true) =
      Advances-bind 0 4 4 (omega arith) (write_status-Advances env lease 0 (omega arith) _ _ _)
        λ _. Triple-Keeps (Keeps-pure tt)
  write_if_changed-Advances (lease, false) =
      Advances-up 0 0 4 (omega arith) (Triple-Keeps (Keeps-pure tt))

  keep_alive-Advances :
      (lease : DeviceLease) (t : Time) → Advances 0 4 (keep_alive (traced env) lease t)
  unfolding keep_alive device_health
  keep_alive-Advances lease t =
      Advances-bind 0 0 4 (omega arith)
        (Triple-Keeps (
          Keeps-if _ (Keeps-pure _)
            (Keeps-bind (Keeps-tried (Keeps-seeing _ _ λ ds log h. h)) λ dev. Keeps-pure _)))
        λ health.
          Advances-bind 0 4 4 (omega arith) (write_if_changed-Advances _)
            λ _. Triple-Keeps (Keeps-bind (Keeps-silent _) λ now. Keeps-pure _)

  heartbeat-Keeps : (n : ℕ) (t : Option Time) → Keeps (Before n) (heartbeat_or_now (traced env) t)
  unfolding heartbeat_or_now
  heartbeat-Keeps n none = Keeps-silent _
  heartbeat-Keeps n (some t) = Keeps-pure t

  expire-Advances : (lease : DeviceLease) → Advances 0 4 (expire (traced env) lease)
  unfolding expire
  expire-Advances lease = Advances-bind 0 3 4 (omega arith) (release_device-Advances env lease) λ _.
      Advances-bind 3 4 4 (omega arith) (write_status-Advances env lease 3 (omega arith) _ _ _)
        λ _. Triple-Keeps (Keeps-pure _)

  pub reconcile_bound-Advances :
      (lease : DeviceLease) → Advances 0 4 (reconcile_bound (traced env) lease)
  unfolding reconcile_bound
  reconcile_bound-Advances lease =
      Advances-bind 0 0 4 (omega arith) (Triple-Keeps (heartbeat-Keeps 0 _)) λ heartbeat.
        Advances-bind 0 0 4 (omega arith) (Triple-Keeps (Keeps-silent _)) λ now.
          Triple-if _ (expire-Advances _) (
            keep_alive-Advances (beating lease heartbeat) (add_time heartbeat (ttl_duration lease)))
