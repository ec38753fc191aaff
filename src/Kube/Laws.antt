-- ===== src/Kube/Laws.antt =====
-- What the program relies on of the libraries and of the API server, as hypotheses of theorems.
use android_device_farm.Common.{◌≡◌, ℕ, ◌*◌, ◌/◌, ◌<◌, false, some, String, List}
use android_device_farm.Go.Time.{Time, second}
use android_device_farm.Api.Meta.{Condition, ObjectKey, ObjectMeta, key_of}
use android_device_farm.Api.Device.{Device}
use android_device_farm.Api.DevicePool.{DevicePool}
use android_device_farm.Api.DeviceLease.{DeviceLease}
use android_device_farm.Kube.Objects.{Pod, Service}
use android_device_farm.Kube.Effect.{ok}
use android_device_farm.Kube.Client.{Env, Machinery}

-- `meta.SetStatusCondition` with a condition that is set already changes nothing.
abbrev pub SetsOnce : Machinery → Type 0
SetsOnce m =
    (l : List Condition) (c : Condition)
    → m.set_status_condition (m.set_status_condition l c).0 c
      ≡ ((m.set_status_condition l c).0, false)

-- The year 10000, which RFC 3339 does not reach.
abbrev pub rfc3339_end : ℕ
rfc3339_end = 315537897600 * second

-- RFC 3339 keeps the second and drops the rest.
abbrev pub KeepsSeconds : Machinery → Type 0
KeepsSeconds m =
    (t : Time) → t < rfc3339_end → m.parse_rfc3339 (m.format_rfc3339 t) ≡ some (t / second * second)

-- `Get` returns the object of the name that it is asked for.
abbrev pub GetsByName : {W : Type 0} → Env W → Type 0
GetsByName {W} env =
    (key : ObjectKey) (w : W) (lease : DeviceLease)
    → (env.get_lease key w).0 ≡ ok lease
    → lease.metadata.name ≡ key.name

abbrev pub GetsPoolByKey : {W : Type 0} → Env W → Type 0
GetsPoolByKey {W} env =
    (key : ObjectKey) (w : W) (pool : DevicePool)
    → (env.get_pool key w).0 ≡ ok pool
    → key_of pool.metadata ≡ key

-- The API server hands back the object of the key that it is asked for, or that it is sent, and an
-- owner reference leaves the key as it is.
pub record KeepsKeys {W : Type 0} (env : Env W) : Type 0 where
  pub gets_device :
      (key : ObjectKey) (w : W) (d : Device)
      → (env.get_device key w).0 ≡ ok d
      → key_of d.metadata ≡ key
  pub updates_device :
      (d : Device) (w : W) (u : Device)
      → (env.update_device d w).0 ≡ ok u
      → key_of u.metadata ≡ key_of d.metadata
  pub gets_pod :
      (key : ObjectKey) (w : W) (p : Pod) → (env.get_pod key w).0 ≡ ok p → key_of p.metadata ≡ key
  pub creates_pod :
      (p : Pod) (w : W) (q : Pod)
      → (env.create_pod p w).0 ≡ ok q
      → key_of q.metadata ≡ key_of p.metadata
  pub gets_service :
      (key : ObjectKey) (w : W) (s : Service)
      → (env.get_service key w).0 ≡ ok s
      → key_of s.metadata ≡ key
  pub owns :
      (kind : String) (owner m m' : ObjectMeta)
      → env.set_controller_reference kind owner m ≡ ok m'
      → key_of m' ≡ key_of m

-- The API server hands a device back with the status that it was sent.
abbrev pub StoresStatus : {W : Type 0} → Env W → Type 0
StoresStatus {W} env =
    (d : Device) (w : W) (u : Device)
    → (env.update_device_status d w).0 ≡ ok u
    → u.status ≡ d.status

-- The API server hands a device back with the annotations that it was sent.
abbrev pub StoresAnnotations : {W : Type 0} → Env W → Type 0
StoresAnnotations {W} env =
    (d : Device) (w : W) (u : Device)
    → (env.update_device d w).0 ≡ ok u
    → u.metadata.annotations ≡ d.metadata.annotations

-- The clock stands at `now` throughout the call.
abbrev pub ReadsClock : {W : Type 0} → Env W → Time → Type 0
ReadsClock {W} env now = (w : W) (t : Time) → (env.now w).0 ≡ ok t → t ≡ now

-- The clock stands, and the API server takes every write of a status and every deletion of a pod; it
-- hands a device back under its key with the status that it was sent.
pub record TakesWrites {W : Type 0} (env : Env W) (now : Time) : Type 0 where
  pub clock : (w : W) → (w' : W) × (env.now w ≡ (ok now, w'))
  pub takes_device :
      (d : Device) (w : W)
      → (u : Device) × (w' : W) × (env.update_device_status d w ≡ (ok u, w'))
        × (u.status ≡ d.status)
        × (key_of u.metadata ≡ key_of d.metadata)
  pub takes_lease :
      (l : DeviceLease) (w : W)
      → (u : DeviceLease) × (w' : W) × (env.update_lease_status l w ≡ (ok u, w'))
  pub deletes_pod : (key : ObjectKey) (w : W) → (w' : W) × (env.delete_pod key w ≡ (ok tt, w'))
