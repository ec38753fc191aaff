-- ===== src/LeaseController/Pending/Binding.antt =====
-- A pending lease and a free device, at a server that takes every write.
use android_device_farm.Common.{◌≡◌, Option, none, some, List, [], ◌∷◌, ◌<>◌}
use android_device_farm.Go.Time.{Time, add_time, sub_time}
use android_device_farm.Api.Device.{Device}
use android_device_farm.Api.DeviceLease.{DeviceLease, bound}
use android_device_farm.Kube.Effect.{Result, ok, after_duration, ReconcileResult}
use android_device_farm.Kube.Client.{Env}
use android_device_farm.Kube.Trace.{
  Event, saw_devices, sent_device_status, sent_lease_status, Traced,
}
use android_device_farm.LeaseController.Status.{ttl_duration, with_status}
use android_device_farm.LeaseController.Pending.{bound_lease}

module _ {W : Type 0} (env : Env W) (lease : DeviceLease) where
  -- The lease as it is published when the device is its own.
  abbrev pub published : Device → Time → DeviceLease
  published dev now =
      with_status env.machinery (bound_lease lease dev now) bound "Bound"
        ("bound to device " <> dev.metadata.name)

-- The heartbeat that the time to live counts from: the lease's own, or now where it has none.
abbrev pub counts_from : Option Time → Time → Time
counts_from none now = now
counts_from (some t) now = t

module _ (lease : DeviceLease) (dev : Device) (now : Time) where
  abbrev pub deadline : Time
  deadline = add_time (counts_from lease.status.last_heartbeat now) (ttl_duration lease)

  -- The device status that is sent: the device as it was listed, but held by the lease.
  abbrev pub ClaimsFor : Device → Type 0
  ClaimsFor sent = (sent.metadata ≡ dev.metadata) × (sent.status.lease_ref ≡ lease.metadata.name)

  -- The lease that is sent.
  abbrev pub BoundTo : DeviceLease → Type 0
  BoundTo l =
      (l.metadata ≡ lease.metadata)
      × (l.status.phase ≡ bound)
      × (l.status.device_ref ≡ dev.metadata.name)
      × (l.status.adb_endpoint ≡ dev.status.adb_endpoint)
      × (l.status.ui_endpoint ≡ dev.status.ui_endpoint)
      × (l.status.last_heartbeat ≡ some (counts_from lease.status.last_heartbeat now))
      × (l.status.expires_at ≡ some deadline)

  -- After a log: the claim, what the server handed back for it, and then the lease, as the last write.
  abbrev pub Binds : {W : Type 0} → List Event → Result ReconcileResult × Traced W → Type 0
  Binds log (r, s) =
      (sent : Device) × (u : Device) × (l : DeviceLease) × (r
        ≡ ok (after_duration (sub_time deadline now)))
      × (s.log ≡ sent_lease_status l ∷ saw_devices (u ∷ []) ∷ sent_device_status sent ∷ log)
      × ClaimsFor sent
      × BoundTo l
