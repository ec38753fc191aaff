-- ===== src/Exclusion.antt =====
-- The writes of one device's status that the API server takes from the reconciles of leases and of
-- the device, in any interleaving, and a lock as what they should amount to. The server refuses a
-- write whose resource version is not the device's current one.
pub mod Logs
pub mod Held
use android_device_farm.Common.{◌≡◌, ◌≢◌, String, List, [], ◌∷◌, ◌++◌, All, In}
use android_device_farm.Api.Meta.{ObjectKey, key_of}
use android_device_farm.Api.Device.{Device}
use android_device_farm.Kube.Client.{Env}
use android_device_farm.Kube.Trace.{Event, sent_device_status, traced, Seen}

abbrev pub version : Device → String
version d = d.metadata.resource_version

-- The states that the server has had of a device.
pub record History : Type 0 where
  pub current : Device
  pub past : List Device

abbrev pub states : History → List Device
states h = h.current ∷ h.past

abbrev pub next : History → Device → History
next h d = record { current = d; past = states h }

abbrev pub holder : History → String
holder h = h.current.status.lease_ref

-- Who made a write: the reconcile of a lease, the reconcile of the device, or anyone else.
pub data Actor : Type 0 where
  lease : String → Actor
  device_controller others : Actor

-- The server takes a device status, sent at the end of a log: what was read before of the device is a
-- state that it had, the version that is sent is the current one, and what is stored is the status
-- that was sent, under a version that the device never had.
pub record Takes (h : History) (before : List Event) (sent stored : Device) : Type 0 where
  pub reads :
      (d : Device) → Seen d before → key_of d.metadata ≡ key_of sent.metadata → In d (states h)
  pub is_current : version sent ≡ version h.current
  pub stores : stored.status ≡ sent.status
  pub fresh : All (λ d. version d ≢ version stored) (states h)

module _ {W : Type 0} (env : Env W) where
  -- One write that the server takes: a device status of the log of a reconcile, or a write by others
  -- of anything but the status.
  pub data Step (h : History) : Actor → History → Type 0 where
    lease_step :
        (key : ObjectKey) (w : W) (after before : List Event) (sent stored : Device)
        → (android_device_farm.LeaseController.Reconcile.reconcile
            (traced env)
            key
            (record { world = w; log = [] })).1.log
          ≡ after ++ sent_device_status sent ∷ before
        → Takes h before sent stored
        → Step h (lease key.name) (next h stored)
    device_step :
        (key : ObjectKey) (w : W) (after before : List Event) (sent stored : Device)
        → (android_device_farm.DeviceController.Reconcile.reconcile
            (traced env)
            key
            (record { world = w; log = [] })).1.log
          ≡ after ++ sent_device_status sent ∷ before
        → Takes h before sent stored
        → Step h device_controller (next h stored)
    other_step :
        (stored : Device)
        → stored.status ≡ h.current.status
        → All (λ d. version d ≢ version stored) (states h)
        → Step h others (next h stored)

  -- Writes in a row, the latest actor first.
  pub data Run (h : History) : List Actor → History → Type 0 where
    here : Run h [] h
    and_then :
        {actors : List Actor} {actor : Actor} {h1 h2 : History}
        → Run h actors h1
        → Step h1 actor h2
        → Run h (actor ∷ actors) h2

-- No two states have the same version.
abbrev pub Distinct : List Device → Type 0
Distinct [] = Unit
Distinct (d ∷ ds) = All (λ e. version e ≢ version d) ds × Distinct ds

-- The lock: a lease takes it when it is free, and only its holder gives it back.
pub data LockStep : Actor → String → String → Type 0 where
  keeps : (actor : Actor) (x : String) → LockStep actor x x
  takes : (l : String) → LockStep (lease l) "" l
  gives : (l : String) → LockStep (lease l) l ""

pub data LockRun (x : String) : List Actor → String → Type 0 where
  here : LockRun x [] x
  and_then :
      {actors : List Actor} {actor : Actor} {y z : String}
      → LockRun x actors y
      → LockStep actor y z
      → LockRun x (actor ∷ actors) z
