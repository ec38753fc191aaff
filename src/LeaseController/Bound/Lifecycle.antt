-- ===== src/LeaseController/Bound/Lifecycle.antt =====
-- `reconcileBound` keeps a lease at its device, or expires it.
use android_device_farm.Common.{◌≡◌, refl, Bool, true, false, Option, none, some}
use android_device_farm.Go.Time.{Time}
use android_device_farm.Api.DeviceLease.{DeviceLease, bound}
use android_device_farm.Kube.Hoare.{Keeps, Keeps-bind, Keeps-pure, Keeps-if, Keeps-tried}
use android_device_farm.Kube.Client.{Env}
use android_device_farm.Kube.Trace.{
  Traced, traced, OnLog, Keeps-sending, Keeps-seeing, Keeps-silent,
}
use android_device_farm.LeaseController.Status.{with_status, write_status}
use android_device_farm.LeaseController.Release.Lifecycle.{release_device-Steps}
use android_device_farm.LeaseController.Lifecycle.{SameDevice, beats, expires, Steps}
use android_device_farm.LeaseController.Bound.{
  Health, refreshed, device_health, heartbeat_or_now, expire, write_if_changed, beating, keep_alive,
  reconcile_bound,
}

module _ {W : Type 0} (env : Env W) (Read : DeviceLease → Type 0) (lease : DeviceLease)
    (read : Read lease) (is_bound : lease.status.phase ≡ bound) where
  abbrev Sound : Traced W → Type 0
  Sound = OnLog (Steps Read)

  -- The lease in memory, of which only the heartbeat, the expiry and the conditions have changed.
  abbrev Same : DeviceLease → Type 0
  Same l = (l.metadata ≡ lease.metadata) × (l.spec ≡ lease.spec) × SameDevice lease l

  refreshed-Same :
      (heartbeat : Time) (health : Health) (t : Time)
      → Same (refreshed env.machinery (beating lease heartbeat) health t).0
  unfolding refreshed
  refreshed-Same heartbeat health t = (refl, refl, (refl, refl, refl))

  write_if_changed-Sound :
      (r : DeviceLease × Bool) → Same r.0 → Keeps Sound (write_if_changed (traced env) r)
  unfolding write_if_changed write_status with_status
  write_if_changed-Sound (l, true) (m, s, same) =
      Keeps-bind (Keeps-sending _ _ λ log h. ((lease, read, m, s, beats is_bound refl same), h))
        λ _. Keeps-pure tt
  write_if_changed-Sound (l, false) same = Keeps-pure tt

  keep_alive-Sound :
      (heartbeat t : Time) → Keeps Sound (keep_alive (traced env) (beating lease heartbeat) t)
  unfolding keep_alive device_health
  keep_alive-Sound heartbeat t =
      Keeps-bind
        (Keeps-if _ (Keeps-pure _)
          (Keeps-bind (Keeps-tried (Keeps-seeing _ _ λ ds log h. h)) λ dev. Keeps-pure _))
        λ health.
          Keeps-bind (write_if_changed-Sound _ (refreshed-Same heartbeat health t))
            λ _. Keeps-bind (Keeps-silent _) λ now. Keeps-pure _

  expire-Sound : (heartbeat : Time) → Keeps Sound (expire (traced env) (beating lease heartbeat))
  unfolding expire write_status with_status
  expire-Sound heartbeat = Keeps-bind (release_device-Steps env Read (beating lease heartbeat)) λ _.
      Keeps-bind
        (Keeps-sending _ _
          λ log h. ((lease, read, refl, refl, expires is_bound refl (refl, refl, refl)), h))
        λ _. Keeps-pure _

  heartbeat-Sound : (t : Option Time) → Keeps Sound (heartbeat_or_now (traced env) t)
  unfolding heartbeat_or_now
  heartbeat-Sound none = Keeps-silent _
  heartbeat-Sound (some t) = Keeps-pure t

  pub reconcile_bound-Sound : Keeps Sound (reconcile_bound (traced env) lease)
  unfolding reconcile_bound
  reconcile_bound-Sound = Keeps-bind (heartbeat-Sound lease.status.last_heartbeat) λ heartbeat.
      Keeps-bind (Keeps-silent _)
        λ now. Keeps-if _ (expire-Sound heartbeat) (keep_alive-Sound heartbeat _)
