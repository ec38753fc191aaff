-- ===== src/LeaseController/Bound/Expiry.antt =====
-- A lease whose heartbeat is too old, at a server that takes every write.
use android_device_farm.Common.{
  ◌≡◌, refl, ap, ◌<◌, true, none, some, List, [], ◌∷◌, first, ◌<>◌, arith,
}
use android_device_farm.Go.Time.{Time, after, add_time}
use android_device_farm.Api.Meta.{ObjectKey}
use android_device_farm.Api.Device.{Device}
use android_device_farm.Api.DeviceLease.{DeviceLease, expired}
use android_device_farm.Kube.Effect.{Result, ok, done, pure, optional, ◌>>=◌, ReconcileResult}
use android_device_farm.Kube.Client.{Env}
use android_device_farm.Kube.Laws.{TakesWrites}
use android_device_farm.Kube.Trace.{
  Event, saw_devices, sent_device_status, deleted_pod, sent_lease_status, Traced, traced, silent,
  sending, seeing, sending_seeing,
}
use android_device_farm.DeviceController.Objects.{emulator_pod_name}
use android_device_farm.LeaseController.Select.{is_bound_to}
use android_device_farm.LeaseController.Status.{ttl_duration, with_status, write_status}
use android_device_farm.LeaseController.Release.{freed, device_bound_to, release_device}
use android_device_farm.LeaseController.Bound.{beating, expire, reconcile_bound}

module _ (lease : DeviceLease) (dev : Device) (now : Time) where
  -- The device as it was listed, but held by no lease and last used now.
  abbrev pub Frees : Device → Type 0
  Frees sent =
      (sent.metadata ≡ dev.metadata)
      × (sent.status.lease_ref ≡ "")
      × (sent.status.last_used_time ≡ some now)

  abbrev pub Ends : DeviceLease → Type 0
  Ends l = (l.metadata ≡ lease.metadata) × (l.spec ≡ lease.spec) × (l.status.phase ≡ expired)

  -- After a log: the release, what the server handed back for it, the deletion of the emulator pod, and
  -- then the lease.
  abbrev pub Expires : {W : Type 0} → List Event → Result ReconcileResult × Traced W → Type 0
  Expires log (r, s) =
      (sent : Device) × (u : Device) × (pod : ObjectKey) × (l : DeviceLease) × (r ≡ ok done)
      × (s.log
          ≡ sent_lease_status l
            ∷ deleted_pod pod
            ∷ saw_devices (u ∷ [])
            ∷ sent_device_status sent
            ∷ log)
      × Frees sent
      × (pod.namespace ≡ dev.metadata.namespace)
      × (pod.name ≡ dev.metadata.name <> "-emulator")
      × Ends l

past-after : (now t : Time) → t < now → after now t ≡ true
past-after now t h = ground arith

module _ {W : Type 0} (env : Env W) (now : Time) (takes : TakesWrites env now)
    (lease : DeviceLease) where
  -- Where the server takes every write while the clock stands at `now`, and hands a device back
  -- under its key with the status that it was sent, now is past the last heartbeat plus the time
  -- to live, and `dev` is the first listed device that is bound to the lease: the reconcile of a
  -- bound lease sends `dev` without a lease and last used now, then deletes the pod named after
  -- `dev`, then, last of all, sends the lease as Expired; and it asks for no requeue.
  pub reconcile_bound-Expires :
      (w w1 w2 : W) (heartbeat : Time) (devices : List Device) (dev : Device)
      → lease.status.last_heartbeat ≡ some heartbeat
      → env.now w ≡ (ok now, w1)
      → add_time heartbeat (ttl_duration lease) < now
      → env.list_devices (record { namespace = lease.metadata.namespace; label = none }) w1
        ≡ (ok devices, w2)
      → first (is_bound_to lease.metadata.name) devices ≡ some dev
      → Expires lease dev now
          (saw_devices devices ∷ [])
          (reconcile_bound (traced env) lease (record { world = w; log = [] }))
  unfolding reconcile_bound expire write_status with_status ttl_duration
  reconcile_bound-Expires w w1 w2 heartbeat devices dev beat clock late list held =
      let late' = past-after now (add_time heartbeat (ttl_duration lease)) late in
      let (w3, clock') = takes.clock w2 in
      let (u, w4, freeing, same, key) = takes.takes_device (freed dev now) w3 in
      let pod : ObjectKey = record {
        namespace = u.metadata.namespace;
        name = emulator_pod_name u;
      } in
      let (w5, gone) = takes.deletes_pod pod w4 in
      let l =
        with_status env.machinery (beating lease heartbeat) expired "TTLExpired"
          "lease expired without a heartbeat; device recycled" in
      let (l', w6, written) = takes.takes_lease l w5 in
      unfold ◌>>=◌ release_device device_bound_to silent sending seeing sending_seeing optional pure
        emulator_pod_name in
      rw (beat, clock, late', list, held, clock', freeing, gone, written)
        (
          freed dev now,
          u,
          pod,
          l,
          refl,
          refl,
          (refl, refl, refl),
          ap (λ k. k.namespace) key,
          ap (λ k. k.name <> "-emulator") key,
          (refl, refl, refl),
        )
