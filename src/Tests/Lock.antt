-- ===== src/Tests/Lock.antt =====
-- A physical device that a lease takes and the device controller then updates, on the small farm.
use android_device_farm.Common.{
  ◌≡◌, ◌≢◌, refl, str_eq, false, eq_iff, arith, ◌*◌, String, none, some, List, [], ◌∷◌, ◌++◌,
}
use android_device_farm.Go.Time.{second}
use android_device_farm.Api.Meta.{ObjectKey}
use android_device_farm.Api.Device.{Device, DevicePhase, leased, physical}
use android_device_farm.Api.DeviceLease.{DeviceLease, pending}
use android_device_farm.Kube.Client.{Env}
use android_device_farm.Kube.Trace.{
  Event, saw_devices, sent_device_status, sent_lease_status, traced, silent, seeing, sending,
  sending_seeing,
}
use android_device_farm.LeaseController.Reconcile.{reconcile}
use android_device_farm.LeaseController.Pending.{claimed, reconcile_pending}
use android_device_farm.LeaseController.Pending.Binding.{published}
use android_device_farm.DeviceController.Status.{with_phase, set_phase}
use android_device_farm.Kube.Effect.{◌>>=◌}
use android_device_farm.Api.Meta.{delete, insert}
use android_device_farm.LeaseController.Release.{device_bound_to}
use android_device_farm.LeaseController.Status.{write_status}
use android_device_farm.DeviceController.Annotations.{
  ann_booted, healthy_changes, healthy_annotations,
}
use android_device_farm.DeviceController.Ensure.{ensure_registration}
use android_device_farm.DeviceController.Recovery.{mark_healthy}
use android_device_farm.Exclusion.{
  History, next, Step, lease_step, device_step, Run, LockRun, lease, device_controller, holder,
}
use android_device_farm.Exclusion.Held.{Run-LockRun, Run-held}
use android_device_farm.Tests.Farm.{farm, gets_by_name, lease_in, clock, device_with}

-- The device under a version.
abbrev versioned : String → Device → Device
versioned v d = record d { metadata = record (d.metadata) { resource_version = v } }

abbrev free_phone : Device
free_phone =
    let d =
      device_with "phone-1" "phone" DevicePhase.ready "" (some (40 * second))
        ((ann_booted, "true") ∷ []) in
    versioned "1" (record d {
      spec = record (d.spec) { provider_type = physical; adb_endpoint = "10.0.0.9:5555" };
    })

abbrev taken : Device
taken = claimed free_phone "ci-7" (40 * second)

abbrev stored : Device
stored = versioned "2" taken

abbrev waiting : DeviceLease
waiting = lease_in pending none

abbrev server : Env Unit
server = farm waiting (free_phone ∷ []) stored

abbrev lease_key : ObjectKey
lease_key = record { namespace = "default"; name = "ci-7" }

abbrev device_key : ObjectKey
device_key = record { namespace = "default"; name = "phone-1" }

abbrev after_claim : List Event
after_claim =
    sent_lease_status (published server waiting taken clock) ∷ saw_devices (taken ∷ []) ∷ []

abbrev before_claim : List Event
before_claim = saw_devices (free_phone ∷ []) ∷ saw_devices (free_phone ∷ []) ∷ []

lease_log :
    (reconcile (traced server) lease_key (record { world = tt; log = [] })).1.log
    ≡ after_claim ++ sent_device_status taken ∷ before_claim
unfolding reconcile ◌>>=◌ silent reconcile_pending device_bound_to seeing sending_seeing
    write_status sending
lease_log = refl

abbrev updated : Device
updated =
    (with_phase server.machinery stored leased "10.0.0.9:5555" "Leased" "bound to lease ci-7").0

abbrev after_update : List Event
after_update = saw_devices (updated ∷ []) ∷ []

abbrev before_update : List Event
before_update = saw_devices (stored ∷ []) ∷ []

device_log :
    (android_device_farm.DeviceController.Reconcile.reconcile
      (traced server)
      device_key
      (record { world = tt; log = [] })).1.log
    ≡ after_update ++ sent_device_status updated ∷ before_update
unfolding android_device_farm.DeviceController.Reconcile.reconcile ◌>>=◌ seeing silent
    ensure_registration mark_healthy healthy_changes sending_seeing set_phase healthy_annotations
    delete insert
device_log = refl

apart : (s t : String) → str_eq s t ≡ false → s ≢ t
apart s t h e = absurd (ground (arith, eq_iff s t))

abbrev first_state : History
first_state = record { current = free_phone; past = [] }

abbrev second_state : History
second_state = next first_state stored

abbrev third_state : History
third_state = next second_state (versioned "3" updated)

claim_taken : Step server first_state (lease "ci-7") second_state
claim_taken = lease_step lease_key tt after_claim before_claim taken stored lease_log (record {
  reads = λ d seen k. ground arith;
  is_current = refl;
  stores = refl;
  fresh = (apart "1" "2" refl, tt);
})

update_taken : Step server second_state device_controller third_state
unfolding with_phase
update_taken =
    device_step device_key tt after_update before_update updated (versioned "3" updated) device_log
      (record {
        reads = λ d seen k. ground arith;
        is_current = refl;
        stores = refl;
        fresh = (apart "2" "3" refl, (apart "1" "3" refl, tt));
      })

Run-LockRun_example : LockRun "" (device_controller ∷ lease "ci-7" ∷ []) "ci-7"
unfolding with_phase
Run-LockRun_example =
    Run-LockRun server (gets_by_name waiting (free_phone ∷ []) stored) (tt, tt)
      (Run.and_then (Run.and_then Run.here claim_taken) update_taken)

Run-held_example : holder third_state ≡ "ci-7"
Run-held_example =
    Run-held server (gets_by_name waiting (free_phone ∷ []) stored)
      ((apart "1" "2" refl, tt), (tt, tt)) (apart "ci-7" "" refl)
      (Run.and_then Run.here update_taken) (λ i. ground (arith, i))
