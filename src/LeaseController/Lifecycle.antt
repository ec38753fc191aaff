-- ===== src/LeaseController/Lifecycle.antt =====
-- The life of a lease: which statuses a reconcile may write over the one that it read.
use android_device_farm.Common.{
  ◌≡◌, eq_iff, String, Bool, true, false, List, [], ◌∷◌, inl, inr, In, first, first-some,
  Option-cases,
}
use android_device_farm.Api.Device.{Device}
use android_device_farm.Api.DeviceLease.{DeviceLease, pending, bound, expired}
use android_device_farm.Kube.Hoare.{Given}
use android_device_farm.Kube.Trace.{
  Event, saw_devices, sent_device_status, sent_device, created_device, deleted_device,
  sent_lease_status, sent_lease, created_lease, patched_lease, deleted_lease, sent_pool_status,
  created_pod, deleted_pod, created_service, sent_service, created_job, Seen, Closed, OnLog, Traced,
}
use android_device_farm.LeaseController.Capacity.Events.{is_capacity_event}
use android_device_farm.LeaseController.Select.{is_bound_to, is_waiting}

-- The device and the endpoints that the lease shows.
abbrev pub SameDevice : DeviceLease → DeviceLease → Type 0
SameDevice l l' =
    (l'.status.device_ref ≡ l.status.device_ref)
    × (l'.status.adb_endpoint ≡ l.status.adb_endpoint)
    × (l'.status.ui_endpoint ≡ l.status.ui_endpoint)

-- A device as the lease shows it when it is bound.
abbrev pub Shows : DeviceLease → Device → Type 0
Shows l d =
    (l.status.device_ref ≡ d.metadata.name)
    × (l.status.adb_endpoint ≡ d.status.adb_endpoint)
    × (l.status.ui_endpoint ≡ d.status.ui_endpoint)

-- A status written over that of a lease: it waits on; it becomes Bound to a device that the API
-- server has shown with this lease in its lease reference; it stays Bound to its device; it expires.
pub data StatusStep (log : List Event) (l l' : DeviceLease) : Type 0 where
  waits :
      is_waiting l.status.phase ≡ true
      → l'.status.phase ≡ pending
      → SameDevice l l'
      → StatusStep log l l'
  binds :
      (d : Device)
      → is_waiting l.status.phase ≡ true
      → l'.status.phase ≡ bound
      → Seen d log
      → d.status.lease_ref ≡ l.metadata.name
      → Shows l' d
      → StatusStep log l l'
  beats : l.status.phase ≡ bound → l'.status.phase ≡ bound → SameDevice l l' → StatusStep log l l'
  expires :
      l.status.phase ≡ bound → l'.status.phase ≡ expired → SameDevice l l' → StatusStep log l l'

-- Not the write of a lease's status.
abbrev pub is_unsaid : Event → Bool
is_unsaid (sent_lease_status l) = false
is_unsaid _ = true

module _ (Read : DeviceLease → Type 0) where
  -- The lease status is a step from a lease that was read, with its metadata and spec.
  abbrev pub StepFrom : DeviceLease → List Event → Type 0
  StepFrom l' log =
      (l : DeviceLease) × (Read l)
      × (l'.metadata ≡ l.metadata)
      × (l'.spec ≡ l.spec)
      × StatusStep log l l'

  -- Each lease status in the log is such a step.
  abbrev pub Steps : List Event → Type 0
  Steps [] = Unit
  Steps (sent_lease_status l' ∷ log) = StepFrom l' log × Steps log
  Steps (e ∷ log) = Steps log

  pub Steps-unsaid : Closed is_unsaid Steps
  Steps-unsaid (sent_lease_status l) log q h = cc
  Steps-unsaid (saw_devices ds) log q h = h
  Steps-unsaid (sent_device_status d) log q h = h
  Steps-unsaid (sent_device d) log q h = h
  Steps-unsaid (created_device d) log q h = h
  Steps-unsaid (deleted_device d) log q h = h
  Steps-unsaid (sent_lease l) log q h = h
  Steps-unsaid (created_lease l) log q h = h
  Steps-unsaid (patched_lease l) log q h = h
  Steps-unsaid (deleted_lease k) log q h = h
  Steps-unsaid (sent_pool_status p) log q h = h
  Steps-unsaid (created_pod p) log q h = h
  Steps-unsaid (deleted_pod k) log q h = h
  Steps-unsaid (created_service s) log q h = h
  Steps-unsaid (sent_service s) log q h = h
  Steps-unsaid (created_job j) log q h = h

  pub Steps-capacity : Closed is_capacity_event Steps
  Steps-capacity (saw_devices ds) log q h = h
  Steps-capacity (created_device d) log q h = h
  Steps-capacity (deleted_device d) log q h = h
  Steps-capacity e log q h = cc

  -- A device that was read, bound to the lease of a name.
  abbrev pub Held : String → Device → List Event → Type 0
  Held name d log = Steps log × (Seen d log × (d.status.lease_ref ≡ name))

  -- What a search through devices that were read finds is bound to the lease.
  pub first-Held :
      {W : Type 0} (name : String) (ds : List Device) (s : Traced W)
      → OnLog (λ log. Steps log × ((d : Device) → In d ds → Seen d log)) s
      → Given (OnLog Steps) (λ d. OnLog (Held name d)) (first (is_bound_to name) ds) s
  first-Held name ds s h = elim (Option-cases (first (is_bound_to name) ds)) [
    | inl none_found ↦ rw none_found (record { logged = h.logged.0 })
    | inr (d, found) ↦ rw found (record {
      logged =
          let (i, q) = first-some (is_bound_to name) ds d found in
          (h.logged.0, (h.logged.1 d i, (eq_iff d.status.lease_ref name).0 q));
    })
  ]
