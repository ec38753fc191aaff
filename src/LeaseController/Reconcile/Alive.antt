-- ===== src/LeaseController/Reconcile/Alive.antt =====
-- A reconcile of a bound lease whose heartbeat is fresh.
use android_device_farm.Common.{◌≡◌, refl, true, false, Option, none, some, []}
use android_device_farm.Go.Time.{Time, after, add_time}
use android_device_farm.Api.Meta.{ObjectKey}
use android_device_farm.Api.DeviceLease.{DeviceLease, LeasePhase, bound}
use android_device_farm.Kube.Effect.{ok, optional, ◌>>=◌}
use android_device_farm.Kube.Client.{Env}
use android_device_farm.Kube.Laws.{ReadsClock}
use android_device_farm.Kube.Trace.{traced, silent}
use android_device_farm.LeaseController.Status.{ttl_duration}
use android_device_farm.LeaseController.Bound.Alive.{Beats, reconcile_bound-fresh}
use android_device_farm.LeaseController.Reconcile.{
  lease_finalizer, is_deleted, by_phase, reconcile_found, reconcile,
}

-- A bound lease that is not being deleted and has its finalizer.
pub record IsLive {W : Type 0} (env : Env W) (lease : DeviceLease) : Type 0 where
  pub phase : lease.status.phase ≡ bound
  pub kept : lease.metadata.deletion_timestamp ≡ none
  pub finalizer : env.contains_finalizer lease.metadata lease_finalizer ≡ true

not_deleted : (t : Option Time) → t ≡ none → is_deleted t ≡ false
not_deleted t e = rw e refl

module _ {W : Type 0} (env : Env W) (lease : DeviceLease) (heartbeat now : Time) where
  by_bound-fresh :
      (p : LeasePhase) (w : W)
      → p ≡ bound
      → ReadsClock env now
      → lease.status.last_heartbeat ≡ some heartbeat
      → after now (add_time heartbeat (ttl_duration lease)) ≡ false
      → Beats (by_phase (traced env) p lease (record { world = w; log = [] })).1.log
  unfolding by_phase
  by_bound-fresh p w e clock beat fresh =
      rw e (reconcile_bound-fresh env lease heartbeat now w clock beat fresh)

  pub reconcile-fresh :
      (key : ObjectKey) (w w1 : W)
      → env.get_lease key w ≡ (ok lease, w1)
      → IsLive env lease
      → ReadsClock env now
      → lease.status.last_heartbeat ≡ some heartbeat
      → after now (add_time heartbeat (ttl_duration lease)) ≡ false
      → Beats (reconcile (traced env) key (record { world = w; log = [] })).1.log
  unfolding reconcile reconcile_found
  reconcile-fresh key w w1 got live clock beat fresh =
      unfold ◌>>=◌ optional silent in
      rw (got, not_deleted lease.metadata.deletion_timestamp live.kept, live.finalizer)
        (by_bound-fresh lease.status.phase w1 live.phase clock beat fresh)
