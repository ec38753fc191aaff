-- ===== src/LeaseController/Reconcile/Lifecycle.antt =====
-- The lease statuses that a reconcile writes are steps in the life of the lease.
use android_device_farm.Common.{◌≡◌, refl, Option, none, some, []}
use android_device_farm.Api.Meta.{ObjectKey}
use android_device_farm.Api.DeviceLease.{DeviceLease, LeasePhase}
use android_device_farm.Kube.Effect.{ok}
use android_device_farm.Kube.Client.{Env}
use android_device_farm.Kube.Laws.{StoresStatus}
use android_device_farm.Kube.Hoare.{
  Keeps, Keeps-bind, Keeps-pure, Keeps-if, Triple, Given, Triple-bind, Triple-given, Triple-Keeps,
  Triple-optional, Keeps-Triple,
}
use android_device_farm.Kube.Trace.{Traced, traced, OnLog, Keeps-sending, Triple-silent}
use android_device_farm.LeaseController.Release.Lifecycle.{release_device-Steps}
use android_device_farm.LeaseController.Pending.Lifecycle.{reconcile_pending-Sound}
use android_device_farm.LeaseController.Bound.Lifecycle.{reconcile_bound-Sound}
use android_device_farm.LeaseController.Lifecycle.{Steps}
use android_device_farm.LeaseController.Reconcile.{
  finalize, add_finalizer_first, by_phase, reconcile_found, reconcile,
}

module _ {W : Type 0} (env : Env W) (stores : StoresStatus env) (Read : DeviceLease → Type 0) where
  abbrev Sound : Traced W → Type 0
  Sound = OnLog (Steps Read)

  finalize-Sound : (lease : DeviceLease) → Keeps Sound (finalize (traced env) lease)
  unfolding finalize
  finalize-Sound lease =
      Keeps-if _
        (Keeps-bind (release_device-Steps env Read lease)
          λ _. Keeps-bind (Keeps-sending _ _ λ log h. h) λ _. Keeps-pure _)
        (Keeps-pure _)

  add_finalizer_first-Sound :
      (lease : DeviceLease) → Keeps Sound (add_finalizer_first (traced env) lease)
  unfolding add_finalizer_first
  add_finalizer_first-Sound lease = Keeps-bind (Keeps-sending _ _ λ log h. h) λ _. Keeps-pure _

  by_phase-Sound :
      (p : LeasePhase) (lease : DeviceLease)
      → Read lease
      → lease.status.phase ≡ p
      → Keeps Sound (by_phase (traced env) p lease)
  unfolding by_phase
  by_phase-Sound LeasePhase.released lease read e = Keeps-pure _
  by_phase-Sound LeasePhase.failed lease read e = Keeps-pure _
  by_phase-Sound LeasePhase.expired lease read e = Keeps-pure _
  by_phase-Sound LeasePhase.bound lease read e = reconcile_bound-Sound env Read lease read e
  by_phase-Sound LeasePhase.pending lease read e =
      reconcile_pending-Sound env stores Read lease read (rw e refl)
  by_phase-Sound LeasePhase.unset lease read e =
      reconcile_pending-Sound env stores Read lease read (rw e refl)

  reconcile_found-Sound :
      (lease : Option DeviceLease)
      → Triple
          (Given Sound (λ l s. Sound s × Read l) lease)
          (reconcile_found (traced env) lease)
          (λ _. Sound)
          Sound
  unfolding reconcile_found
  reconcile_found-Sound none = Triple-Keeps (Keeps-pure _)
  reconcile_found-Sound (some lease) = Triple-given λ read. Triple-Keeps (
      Keeps-if _ (finalize-Sound lease)
        (Keeps-if _ (add_finalizer_first-Sound lease) (by_phase-Sound _ lease read refl)))

module _ {W : Type 0} (env : Env W) (key : ObjectKey) where
  -- The API server returned the lease of the key.
  abbrev pub IsRead : DeviceLease → Type 0
  IsRead lease = (w : W) × ((env.get_lease key w).0 ≡ ok lease)

  reconcile-Sound : StoresStatus env → Keeps (OnLog (Steps IsRead)) (reconcile (traced env) key)
  unfolding reconcile
  reconcile-Sound stores = Keeps-Triple (
      Triple-bind
        (Triple-optional
          (Triple-silent (Steps IsRead) IsRead (env.get_lease key) (λ w lease e. (w, e))))
        (reconcile_found-Sound env stores IsRead))

  -- Where the API server hands a device back with the status that it was sent: each lease status that
  -- a reconcile sends is a step in the life of the lease that it read, whose metadata and spec it
  -- carries. A lease that waits stays Pending, or becomes Bound, and then only to a device that the
  -- API server has shown with this lease in its lease reference, and with that device's endpoints; a
  -- Bound lease stays Bound to its device or becomes Expired; no other lease's status is written.
  pub reconcile-Steps :
      (w : W)
      → StoresStatus env
      → Steps IsRead (reconcile (traced env) key (record { world = w; log = [] })).1.log
  reconcile-Steps w stores =
      ((reconcile-Sound stores).run (record { world = w; log = [] })
        (record { logged = tt })).logged
