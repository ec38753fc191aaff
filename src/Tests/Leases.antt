-- ===== src/Tests/Leases.antt =====
-- The lease controller on the small farm.
use android_device_farm.Common.{
  ◌↔◌, Bool, str_eq, ◌*◌, ◌≤◌, ◌≡◌, ◌%◌, refl, true, false, none, some, List, [], ◌∷◌, All, In,
  count,
}
use android_device_farm.Go.Int32.{int32_mod}
use android_device_farm.Go.Time.{second, after, add_time}
use android_device_farm.Api.Meta.{ObjectKey}
use android_device_farm.Api.Device.{Device}
use android_device_farm.Api.DeviceLease.{DeviceLease, pending, bound}
use android_device_farm.Kube.Effect.{ok, pure, after_duration, ◌>>=◌}
use android_device_farm.Kube.Laws.{ReadsClock}
use android_device_farm.Kube.Trace.{
  silent, sending, seeing, sending_seeing, Event, traced, sent_device_status,
}
use android_device_farm.LeaseController.Exclusive.{Justified}
use android_device_farm.LeaseController.Pending.{reconcile_pending}
use android_device_farm.LeaseController.Release.{device_bound_to}
use android_device_farm.LeaseController.Reconcile.{reconcile, leases_for_device}
use android_device_farm.LeaseController.Reconcile.Enqueue.{Enqueued, leases_for_device-In}
use android_device_farm.LeaseController.Reconcile.Devices.{reconcile-Justified}
use android_device_farm.LeaseController.Capacity.{make_room}
use android_device_farm.LeaseController.Capacity.Room.{Warranted, make_room-Warranted}
use android_device_farm.LeaseController.Bound.{reconcile_bound, refreshed}
use android_device_farm.LeaseController.Bound.Alive.{Beats, reconcile_bound-fresh}
use android_device_farm.LeaseController.Bound.Stable.{refreshed-settled}
use android_device_farm.LeaseController.Select.{
  unclaimed_supply, is_unclaimed, count_demand, is_demand, lru_idle_other_class,
}
use android_device_farm.LeaseController.Select.Count.{
  IsSupply, IsDemand, unclaimed_supply-count, count_demand-count,
}
use android_device_farm.LeaseController.Select.Lru.{
  IsIdleOther, age_rank, lru_idle_other_class-some, lru_idle_other_class-none,
}
use android_device_farm.Common.Int.{pos}
use android_device_farm.LeaseController.Status.{ttl_duration, write_status}
use android_device_farm.Tests.Library.{machinery, sets_once}
use android_device_farm.Tests.Farm.{farm, gets_by_name, tablet, phone, pool, dc, lease_in, clock}

abbrev key : ObjectKey
key = record { namespace = "default"; name = "ci-7" }

abbrev devices : List Device
devices = tablet ∷ phone ∷ []

abbrev waiting : DeviceLease
waiting = lease_in pending none

abbrev beating : DeviceLease
beating = lease_in bound (some (90 * second))

abbrev is_claim : Event → Bool
is_claim (sent_device_status d) = str_eq d.status.lease_ref "ci-7"
is_claim _ = false

reconcile-Justified_example :
    Justified "ci-7"
      (reconcile (traced (farm waiting devices phone)) key (record { world = tt; log = [] })).1.log
reconcile-Justified_example =
    reconcile-Justified (farm waiting devices phone) (gets_by_name waiting devices phone) key tt

make_room-Warranted_example :
    Warranted pool "phone"
      (tablet ∷ [])
      1
      (make_room
        (traced (farm waiting (tablet ∷ []) phone))
        pool
        dc
        waiting
        (tablet ∷ [])
        1
        (record { world = tt; log = [] })).1.log
make_room-Warranted_example =
    make_room-Warranted (farm waiting (tablet ∷ []) phone) pool dc waiting (tablet ∷ []) 1 tt

reads_clock : ReadsClock (farm beating devices phone) clock
unfolding pure
reads_clock w t e = cc

still_fresh : after clock (add_time (90 * second) (ttl_duration beating)) ≡ false
unfolding ttl_duration
still_fresh = refl

reconcile_bound-fresh_example :
    Beats
      (reconcile_bound
        (traced (farm beating devices phone))
        beating
        (record { world = tt; log = [] })).1.log
reconcile_bound-fresh_example =
    reconcile_bound-fresh (farm beating devices phone) beating (90 * second) clock tt reads_clock
      refl still_fresh

refreshed-settled_example :
    let l = (refreshed machinery beating (true, "Healthy", "bound device is healthy") clock).0 in
    refreshed machinery l (true, "Healthy", "bound device is healthy") clock ≡ (l, false)
refreshed-settled_example =
    refreshed-settled machinery sets_once beating (true, "Healthy", "bound device is healthy") clock

listed :
    (farm waiting devices phone).list_leases (record { namespace = "default"; label = none }) tt
    ≡ (ok (waiting ∷ []), tt)
unfolding pure
listed = refl

leases_for_device-In_example :
    (keys : List ObjectKey) × (leases_for_device
        (farm waiting devices phone)
        (record { namespace = "default"; name = "phone-1" })
        tt
      ≡ (ok keys, tt))
    × ((key : ObjectKey) → In key keys ↔ Enqueued "phone-1" key (waiting ∷ []))
leases_for_device-In_example =
    leases_for_device-In (farm waiting devices phone)
      (record { namespace = "default"; name = "phone-1" }) (waiting ∷ []) tt tt listed

unclaimed_supply-count_example :
    (unclaimed_supply devices "phone" ≡ count (is_unclaimed "phone") devices % int32_mod)
    × ((d : Device) → (is_unclaimed "phone" d ≡ true) ↔ IsSupply "phone" d)
unclaimed_supply-count_example = unclaimed_supply-count devices "phone"

count_demand-count_example :
    (count_demand (waiting ∷ beating ∷ []) "phone"
      ≡ count (is_demand "phone") (waiting ∷ beating ∷ []) % int32_mod)
    × ((l : DeviceLease) → (is_demand "phone" l ≡ true) ↔ IsDemand "phone" l)
count_demand-count_example = count_demand-count (waiting ∷ beating ∷ []) "phone"

picks_tablet : lru_idle_other_class devices "phone" ≡ some tablet
unfolding lru_idle_other_class
picks_tablet = refl

lru_idle_other_class-some_example :
    In tablet devices
    × IsIdleOther "phone" tablet
    × All
        (λ d.
          IsIdleOther "phone" d → age_rank (some (50 * second)) ≤ age_rank d.status.last_used_time)
        devices
lru_idle_other_class-some_example = lru_idle_other_class-some devices "phone" tablet picks_tablet

picks_none : lru_idle_other_class (phone ∷ []) "phone" ≡ none
unfolding lru_idle_other_class
picks_none = refl

lru_idle_other_class-none_example : All (λ d. ¬ IsIdleOther "phone" d) (phone ∷ [])
lru_idle_other_class-none_example = lru_idle_other_class-none (phone ∷ []) "phone" picks_none

-- The phone is claimed and the binding is published, for 300 s.
test_claims :
    (reconcile (traced (farm waiting devices phone)) key (record { world = tt; log = [] })).0
    ≡ ok (after_duration (pos (300 * second)))
unfolding reconcile reconcile_pending device_bound_to write_status ttl_duration silent sending
    seeing sending_seeing ◌>>=◌
test_claims = refl

test_claims_log :
    count is_claim
      (reconcile (traced (farm waiting devices phone)) key (record { world = tt; log = [] })).1.log
    ≡ 1
unfolding reconcile reconcile_pending device_bound_to write_status ttl_duration silent sending
    seeing sending_seeing ◌>>=◌
test_claims_log = refl
