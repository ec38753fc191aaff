-- ===== src/Tests/Binding.antt =====
-- A claim that wins, and a lease that expires, on the small farm.
use android_device_farm.Common.{◌≡◌, refl, ◌*◌, ◌<◌, arith, none, some, List, [], ◌∷◌}
use android_device_farm.Go.Time.{second, add_time}
use android_device_farm.Api.Device.{Device, DevicePhase}
use android_device_farm.Api.DeviceLease.{DeviceLease, pending, bound}
use android_device_farm.Kube.Effect.{ok, pure}
use android_device_farm.Kube.Client.{Env, ListOptions}
use android_device_farm.Kube.Laws.{TakesWrites}
use android_device_farm.Kube.Trace.{traced, saw_devices}
use android_device_farm.PoolController.Provision.{label_class}
use android_device_farm.LeaseController.Status.{ttl_duration}
use android_device_farm.LeaseController.Pending.{claimed}
use android_device_farm.LeaseController.Bound.{reconcile_bound}
use android_device_farm.LeaseController.Bound.Expiry.{Expires, reconcile_bound-Expires}
use android_device_farm.Tests.Farm.{farm, lease_in, clock, device_with}

abbrev waiting : DeviceLease
waiting = lease_in pending none

abbrev used_phone : Device
used_phone = device_with "phone-1" "phone" DevicePhase.ready "" (some (40 * second)) []

abbrev devices : List Device
devices = used_phone ∷ []

abbrev server : Env Unit
server = farm waiting devices used_phone

abbrev of_namespace : ListOptions
of_namespace = record { namespace = "default"; label = none }

abbrev of_class : ListOptions
of_class = record { namespace = "default"; label = some (label_class, "phone") }

abbrev taken : Device
taken = claimed used_phone "ci-7" (40 * second)

clock_read : server.now tt ≡ (ok clock, tt)
unfolding pure
clock_read = refl

takes_writes :
    (lease : DeviceLease) (listed : List Device) → TakesWrites (farm lease listed used_phone) clock
unfolding pure
takes_writes lease listed = record {
  clock = λ w. (w, refl);
  takes_device = λ d w. (d, w, refl, refl, refl);
  takes_lease = λ l w. (l, w, refl);
  deletes_pod = λ key w. (w, refl);
}

-- A lease with a time to live of 30 s, of which 90 s have passed.
abbrev stale : DeviceLease
stale =
    let l = lease_in bound (some (10 * second)) in
    record l { spec = record (l.spec) { ttl_seconds = 30 } }

abbrev held : Device
held = taken

abbrev holder : Env Unit
holder = farm stale (held ∷ []) used_phone

held_listed : holder.list_devices of_namespace tt ≡ (ok (held ∷ []), tt)
unfolding pure
held_listed = refl

too_late : add_time (10 * second) (ttl_duration stale) < clock
unfolding ttl_duration
too_late = omega arith

reconcile_bound-Expires_example :
    Expires stale held clock
      (saw_devices (held ∷ []) ∷ [])
      (reconcile_bound (traced holder) stale (record { world = tt; log = [] }))
reconcile_bound-Expires_example =
    reconcile_bound-Expires holder clock (takes_writes stale (held ∷ [])) stale tt tt tt
      (10 * second) (held ∷ []) held refl clock_read too_late held_listed refl
