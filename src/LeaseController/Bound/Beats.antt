-- ===== src/LeaseController/Bound/Beats.antt =====
-- `reconcileBound` writes a device's status only to release the device.
use android_device_farm.Common.{◌≡◌, List, refl, String, Bool, true, false, Option, none, some}
use android_device_farm.Go.Time.{Time, add_time}
use android_device_farm.Api.DeviceLease.{DeviceLease}
use android_device_farm.Kube.Hoare.{Keeps, Keeps-bind, Keeps-pure, Keeps-if, Keeps-tried}
use android_device_farm.Kube.Client.{Env}
use android_device_farm.Kube.Trace.{
  sent_device_status, Event, Closed, is_quiet, sent_lease_status, Keeps-sending, saw_devices,
  Traced, traced, OnLog, Keeps-seeing, Keeps-silent,
}
use android_device_farm.LeaseController.Status.{write_status, ttl_duration}
use android_device_farm.LeaseController.Release.Frees.{release_device-Fair}
use android_device_farm.LeaseController.Exclusive.{Justified, Justified-quiet, Keeps-quiet}
use android_device_farm.LeaseController.Bound.{
  device_health, heartbeat_or_now, expire, write_if_changed, beating, keep_alive, reconcile_bound,
}

-- What a lease that is alive does.
abbrev pub is_beat : Event → Bool
is_beat (saw_devices ds) = true
is_beat (sent_lease_status l) = true
is_beat _ = false

is_beat-quiet : (e : Event) → is_beat e ≡ true → is_quiet e ≡ true
is_beat-quiet (sent_device_status d) h = h
is_beat-quiet (saw_devices ds) h = h
is_beat-quiet (sent_lease_status l) h = h
is_beat-quiet e h = cc

module _ {W : Type 0} (env : Env W) (I : List Event → Type 0) (closed : Closed is_beat I) where
  abbrev Inside : Traced W → Type 0
  Inside = OnLog I

  device_health-Fair : (lease : DeviceLease) → Keeps Inside (device_health (traced env) lease)
  unfolding device_health
  device_health-Fair lease = Keeps-if _ (Keeps-pure _) (
      Keeps-bind (Keeps-tried (Keeps-seeing _ _ λ ds log. closed (saw_devices ds) log refl))
        λ dev. Keeps-pure _)

  write_if_changed-Fair : (r : DeviceLease × Bool) → Keeps Inside (write_if_changed (traced env) r)
  unfolding write_if_changed write_status
  write_if_changed-Fair (lease, true) =
      Keeps-bind (Keeps-sending _ _ λ log. closed (sent_lease_status _) log refl) λ _. Keeps-pure tt
  write_if_changed-Fair (lease, false) = Keeps-pure tt

  pub keep_alive-Fair :
      (lease : DeviceLease) (t : Time) → Keeps Inside (keep_alive (traced env) lease t)
  unfolding keep_alive
  keep_alive-Fair lease t = Keeps-bind (device_health-Fair lease) λ health.
      Keeps-bind (write_if_changed-Fair _) λ _. Keeps-bind (Keeps-silent _) λ now. Keeps-pure _

  pub heartbeat-Fair : (t : Option Time) → Keeps Inside (heartbeat_or_now (traced env) t)
  unfolding heartbeat_or_now
  heartbeat-Fair none = Keeps-silent _
  heartbeat-Fair (some t) = Keeps-pure t

beats : (name : String) → Closed is_beat (Justified name)
beats name e log h = Justified-quiet name e log (is_beat-quiet e h)

module _ {W : Type 0} (env : Env W) where
  expire-Fair :
      (lease : DeviceLease)
      → Keeps (OnLog (Justified lease.metadata.name)) (expire (traced env) lease)
  unfolding expire write_status
  expire-Fair lease =
      Keeps-bind (release_device-Fair env lease)
        λ _. Keeps-bind (Keeps-quiet lease.metadata.name _ _ refl) λ _. Keeps-pure _

  pub reconcile_bound-Fair :
      (lease : DeviceLease)
      → Keeps (OnLog (Justified lease.metadata.name)) (reconcile_bound (traced env) lease)
  unfolding reconcile_bound
  reconcile_bound-Fair lease =
      Keeps-bind
        (heartbeat-Fair env (Justified lease.metadata.name) (beats lease.metadata.name)
          lease.status.last_heartbeat)
        λ heartbeat. Keeps-bind (Keeps-silent _) λ now.
          Keeps-if _ (expire-Fair (beating lease heartbeat)) (
            keep_alive-Fair env (Justified lease.metadata.name) (beats lease.metadata.name)
              (beating lease heartbeat) (add_time heartbeat (ttl_duration lease)))
