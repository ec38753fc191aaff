-- ===== src/LeaseController/Exclusive.antt =====
-- What the lease controller may write to a device's status: a claim by the lease that is
-- reconciled, of a free device, and a release of a device that this lease holds.
use android_device_farm.Common.{
  eq_iff, none, arith, ◌≡◌, refl, String, Bool, true, List, [], ◌∷◌, inl, inr, In, first,
  first-some, Option-cases,
}
use android_device_farm.Go.Time.{Time}
use android_device_farm.Api.Device.{Device, ready}
use android_device_farm.Kube.Trace.{
  Event, saw_devices, sent_device_status, sent_device, created_device, deleted_device,
  sent_lease_status, sent_lease, created_lease, patched_lease, deleted_lease, sent_pool_status,
  created_pod, deleted_pod, created_service, sent_service, created_job, Seen, Closed, is_quiet,
  OnLog, Traced, sending, Keeps-sending,
}
use android_device_farm.Kube.Hoare.{Given, Keeps}
use android_device_farm.Kube.Effect.{Exec}
use android_device_farm.LeaseController.Capacity.Events.{is_capacity_event}
use android_device_farm.LeaseController.Select.{is_bound_to, is_free_ready}
use android_device_farm.LeaseController.Release.{freed}
use android_device_farm.LeaseController.Pending.{claimed}

-- The device but for the binding: only the lease reference and the time of last use differ.
abbrev pub SameBut : Device → Device → Type 0
SameBut d d' =
    (d'.metadata ≡ d.metadata)
    × (d'.spec ≡ d.spec)
    × (d'.status.phase ≡ d.status.phase)
    × (d'.status.adb_endpoint ≡ d.status.adb_endpoint)
    × (d'.status.ui_endpoint ≡ d.status.ui_endpoint)
    × (d'.status.conditions ≡ d.status.conditions)

-- The two status writes that a lease may make on a device that it read: it takes a Ready device that
-- no lease holds and that is not being deleted, or it gives back a device that it holds.
pub data Transition (lease : String) (d d' : Device) : Type 0 where
  claims :
      d.status.lease_ref ≡ ""
      → d.status.phase ≡ ready
      → d.metadata.deletion_timestamp ≡ none
      → d'.status.lease_ref ≡ lease
      → SameBut d d'
      → Transition lease d d'
  frees :
      d.status.lease_ref ≡ lease → d'.status.lease_ref ≡ "" → SameBut d d' → Transition lease d d'

free_ready_facts :
    (d : Device)
    → is_free_ready d ≡ true
    → (d.status.lease_ref ≡ "") × (d.status.phase ≡ ready) × (d.metadata.deletion_timestamp ≡ none)
free_ready_facts d h = ground (arith, eq_iff d.status.lease_ref "")

claimed-Transition :
    (lease : String) (d : Device) (t : Time)
    → is_free_ready d ≡ true
    → Transition lease d (claimed d lease t)
claimed-Transition lease d t h =
    let (free, is_ready, live) = free_ready_facts d h in
    claims free is_ready live refl (refl, refl, refl, refl, refl, refl)

freed-Transition :
    (lease : String) (d : Device) (t : Time)
    → is_bound_to lease d ≡ true
    → Transition lease d (freed d t)
freed-Transition lease d t h =
    frees ((eq_iff d.status.lease_ref lease).0 h) refl (refl, refl, refl, refl, refl, refl)

-- Each device status in the log is written over a device that was read before it, by a transition.
abbrev pub Justified : String → List Event → Type 0
Justified lease [] = Unit
Justified lease (sent_device_status d' ∷ log) =
    ((d : Device) × (Seen d log × Transition lease d d')) × Justified lease log
Justified lease (e ∷ log) = Justified lease log

-- A device that was read and passes a test, in a justified log.
abbrev pub Holds : String → (Device → Bool) → Device → List Event → Type 0
Holds lease p d log = Justified lease log × (Seen d log × (p d ≡ true))

pub Justified-quiet : (lease : String) → Closed is_quiet (Justified lease)
Justified-quiet lease (saw_devices ds) log q h = h
Justified-quiet lease (sent_device_status d) log q h = cc
Justified-quiet lease (sent_device d) log q h = h
Justified-quiet lease (created_device d) log q h = h
Justified-quiet lease (deleted_device d) log q h = h
Justified-quiet lease (sent_lease_status l) log q h = h
Justified-quiet lease (sent_lease l) log q h = h
Justified-quiet lease (created_lease l) log q h = h
Justified-quiet lease (patched_lease l) log q h = h
Justified-quiet lease (deleted_lease l) log q h = h
Justified-quiet lease (sent_pool_status p) log q h = h
Justified-quiet lease (created_pod p) log q h = h
Justified-quiet lease (deleted_pod p) log q h = h
Justified-quiet lease (created_service s) log q h = h
Justified-quiet lease (sent_service s) log q h = h
Justified-quiet lease (created_job j) log q h = h

pub Justified-capacity : (lease : String) → Closed is_capacity_event (Justified lease)
Justified-capacity lease (saw_devices ds) log q h = h
Justified-capacity lease (created_device d) log q h = h
Justified-capacity lease (deleted_device d) log q h = h
Justified-capacity lease e log q h = cc

pub Holds-saw :
    (lease : String) (p : Device → Bool) (d : Device) (ds : List Device) (log : List Event)
    → Justified lease log
    → In d ds
    → p d ≡ true
    → Holds lease p d (saw_devices ds ∷ log)
Holds-saw lease p d ds log j i q = (j, (inl i, q))

pub Justified-claim :
    (lease : String) (d : Device) (t : Time) (log : List Event)
    → Holds lease is_free_ready d log
    → Justified lease (sent_device_status (claimed d lease t) ∷ log)
Justified-claim lease d t log (j, (seen, free)) =
    ((d, (seen, claimed-Transition lease d t free)), j)

pub Justified-free :
    (lease : String) (d : Device) (t : Time) (log : List Event)
    → Holds lease (is_bound_to lease) d log
    → Justified lease (sent_device_status (freed d t) ∷ log)
Justified-free lease d t log (j, (seen, held)) = ((d, (seen, freed-Transition lease d t held)), j)

-- A write that is not of a device's status.
pub Keeps-quiet :
    {W A : Type 0} (lease : String) (e : Event) (m : Exec W A)
    → is_quiet e ≡ true
    → Keeps (OnLog (Justified lease)) (sending e m)
Keeps-quiet lease e m q = Keeps-sending e m λ log. Justified-quiet lease e log q

module _ (lease : String) (W : Type 0) where
  abbrev pub Fair : Traced W → Type 0
  Fair = OnLog (Justified lease)

  abbrev pub Holding : (Device → Bool) → Device → Traced W → Type 0
  Holding p d = OnLog (Holds lease p d)

  pub Holding-Fair : (p : Device → Bool) (d : Device) (s : Traced W) → Holding p d s → Fair s
  Holding-Fair p d s h = record { logged = h.logged.0 }

  -- A justified log, in which the devices were read.
  abbrev pub Listed : List Device → List Event → Type 0
  Listed ds log = Justified lease log × ((d : Device) → In d ds → Seen d log)

  -- What a search through devices that were read finds is a device that was read.
  pub first-Holding :
      (p : Device → Bool) (ds : List Device) (s : Traced W)
      → OnLog (Listed ds) s
      → Given Fair (Holding p) (first p ds) s
  first-Holding p ds s h = elim (Option-cases (first p ds)) [
    | inl none_found ↦ rw none_found (record { logged = h.logged.0 })
    | inr (d, found) ↦ rw found (record {
      logged = let (i, q) = first-some p ds d found in (h.logged.0, (h.logged.1 d i, q));
    })
  ]
