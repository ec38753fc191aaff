-- ===== src/DeviceController/Bindings.antt =====
-- What a device controller that leaves bindings alone sends: device statuses that carry the binding
-- of the device that was read.
use android_device_farm.Common.{◌≡◌, refl, List, [], ◌∷◌, inl}
use android_device_farm.Api.Meta.{key_of}
use android_device_farm.Api.Device.{Device}
use android_device_farm.Kube.Trace.{
  Event, saw_devices, sent_device_status, sent_device, created_device, deleted_device,
  sent_lease_status, sent_lease, created_lease, patched_lease, deleted_lease, sent_pool_status,
  created_pod, deleted_pod, created_service, sent_service, created_job, Seen, Seen-later, Closed,
  is_quiet, OnLog, Traced,
}

-- The fields that the lease controller writes, the key and the resource version.
abbrev pub SameBinding : Device → Device → Type 0
SameBinding d d' =
    (key_of d'.metadata ≡ key_of d.metadata)
    × (d'.metadata.resource_version ≡ d.metadata.resource_version)
    × (d'.status.lease_ref ≡ d.status.lease_ref)
    × (d'.status.last_used_time ≡ d.status.last_used_time)

-- It was read with the same binding.
abbrev pub Origin : Device → List Event → Type 0
Origin d' log = (d : Device) × (Seen d log × SameBinding d d')

-- Each device status in the log is sent over a device that was read before it, with its binding.
abbrev pub Preserved : List Event → Type 0
Preserved [] = Unit
Preserved (sent_device_status d' ∷ log) = Origin d' log × Preserved log
Preserved (e ∷ log) = Preserved log

abbrev pub From : Device → List Event → Type 0
From d log = Preserved log × Origin d log

pub Preserved-quiet : Closed is_quiet Preserved
Preserved-quiet (saw_devices ds) log q h = h
Preserved-quiet (sent_device_status d) log q h = cc
Preserved-quiet (sent_device d) log q h = h
Preserved-quiet (created_device d) log q h = h
Preserved-quiet (deleted_device d) log q h = h
Preserved-quiet (sent_lease_status l) log q h = h
Preserved-quiet (sent_lease l) log q h = h
Preserved-quiet (created_lease l) log q h = h
Preserved-quiet (patched_lease l) log q h = h
Preserved-quiet (deleted_lease l) log q h = h
Preserved-quiet (sent_pool_status p) log q h = h
Preserved-quiet (created_pod p) log q h = h
Preserved-quiet (deleted_pod p) log q h = h
Preserved-quiet (created_service s) log q h = h
Preserved-quiet (sent_service s) log q h = h
Preserved-quiet (created_job j) log q h = h

pub From-quiet : (d : Device) → Closed is_quiet (From d)
From-quiet d e log q (p, (o, (seen, same))) =
    (Preserved-quiet e log q p, (o, (Seen-later o e log seen, same)))

-- A device that is read.
pub From-saw : (d : Device) (log : List Event) → Preserved log → From d (saw_devices (d ∷ []) ∷ log)
From-saw d log p = (p, (d, (inl (inl refl), (refl, refl, refl, refl))))

module _ (W : Type 0) where
  abbrev pub Fine : Traced W → Type 0
  Fine = OnLog Preserved

  pub From-Fine : (d : Device) (s : Traced W) → OnLog (From d) s → Fine s
  From-Fine d s h = record { logged = h.logged.0 }
