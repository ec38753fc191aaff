-- ===== src/LeaseController/Reconcile.antt =====
-- `Reconcile` and `leasesForDevice` of devicelease_controller.go.
pub mod Devices
pub mod Enqueue
pub mod Lifecycle
pub mod Order
pub mod Alive
use android_device_farm.Common.{
  String, Bool, false, ◌||◌, not, Option, none, some, List, [], map, keep, str_eq, if◌then◌else◌,
}
use android_device_farm.Go.Time.{Time, is_zero}
use android_device_farm.Api.Meta.{ObjectMeta, ObjectKey, key_of}
use android_device_farm.Api.DeviceLease.{DeviceLease, LeasePhase}
use android_device_farm.Kube.Effect.{
  Exec, pure, optional, tried, ◌>>=◌, ◌>>◌, ReconcileResult, done,
}
use android_device_farm.Kube.Client.{Env}
use android_device_farm.LeaseController.Select.{is_waiting}
use android_device_farm.LeaseController.Release.{release_device}
use android_device_farm.LeaseController.Pending.{reconcile_pending}
use android_device_farm.LeaseController.Bound.{reconcile_bound}

abbrev pub lease_finalizer : String
lease_finalizer = "farm.example.com/lease-cleanup"

-- `!lease.DeletionTimestamp.IsZero()`
abbrev pub is_deleted : Option Time → Bool
is_deleted none = false
is_deleted (some t) = not (is_zero t)

abbrev with_metadata : DeviceLease → ObjectMeta → DeviceLease
with_metadata lease m = record lease { metadata = m }

-- The test of `leasesForDevice`.
abbrev pub concerns : String → DeviceLease → Bool
concerns device l = is_waiting l.status.phase || str_eq l.status.device_ref device

abbrev keys_concerned : String → Option (List DeviceLease) → List ObjectKey
keys_concerned device none = []
keys_concerned device (some leases) =
    map (λ (l : DeviceLease). key_of l.metadata) (keep (concerns device) leases)

module _ {W : Type 0} (env : Env W) where
  -- The lease is being deleted: free the device, then drop the finalizer.
  finalize : DeviceLease → Exec W ReconcileResult
  finalize lease =
      if env.contains_finalizer lease.metadata lease_finalizer
      then (do
        release_device env lease
        env.update_lease (with_metadata lease (env.remove_finalizer lease.metadata lease_finalizer))
        pure done)
      else pure done

  add_finalizer_first : DeviceLease → Exec W ReconcileResult
  add_finalizer_first lease = do
    env.update_lease (with_metadata lease (env.add_finalizer lease.metadata lease_finalizer))
    pure done

  -- The switch on the lease's phase.
  by_phase : LeasePhase → DeviceLease → Exec W ReconcileResult
  by_phase LeasePhase.released lease = pure done
  by_phase LeasePhase.failed lease = pure done
  by_phase LeasePhase.expired lease = pure done
  by_phase LeasePhase.bound lease = reconcile_bound env lease
  by_phase _ lease = reconcile_pending env lease

  reconcile_found : Option DeviceLease → Exec W ReconcileResult
  unfolding finalize add_finalizer_first by_phase
  reconcile_found none = pure done
  reconcile_found (some lease) =
      if is_deleted lease.metadata.deletion_timestamp
      then finalize lease
      else if not (env.contains_finalizer lease.metadata lease_finalizer)
      then add_finalizer_first lease
      else by_phase lease.status.phase lease

  unfoldable pub reconcile : ObjectKey → Exec W ReconcileResult
  unfolding reconcile_found
  reconcile key = do lease ← optional (env.get_lease key); reconcile_found lease

  -- A failed listing enqueues nothing.
  unfoldable pub leases_for_device : ObjectKey → Exec W (List ObjectKey)
  leases_for_device device = do
    leases ← tried (env.list_leases (record { namespace = device.namespace; label = none }))
    pure (keys_concerned device.name leases)
