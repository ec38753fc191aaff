-- ===== src/LeaseController/Reconcile/Order.antt =====
-- `Reconcile` of devicelease_controller.go writes in order, and each stage once.
use android_device_farm.Common.{refl, Option, none, some, [], arith}
use android_device_farm.Api.Meta.{ObjectKey}
use android_device_farm.Api.DeviceLease.{DeviceLease, LeasePhase}
use android_device_farm.Kube.Client.{Env}
use android_device_farm.Kube.Hoare.{Keeps-pure, Keeps-optional, Triple-Keeps, Triple-if, Triple-end}
use android_device_farm.Kube.Trace.{traced, Keeps-silent}
use android_device_farm.LeaseController.Order.{
  stages, Descends, Advances, Advances-up, Advances-bind, Advances-sending,
}
use android_device_farm.LeaseController.Release.Order.{release_device-Advances}
use android_device_farm.LeaseController.Pending.Order.{reconcile_pending-Advances}
use android_device_farm.LeaseController.Bound.Order.{reconcile_bound-Advances}
use android_device_farm.LeaseController.Reconcile.{
  finalize, add_finalizer_first, by_phase, reconcile_found, reconcile,
}

module _ {W : Type 0} (env : Env W) where
  by_phase-Advances :
      (p : LeasePhase) (lease : DeviceLease) → Advances 0 4 (by_phase (traced env) p lease)
  unfolding by_phase
  by_phase-Advances LeasePhase.released lease =
      Advances-up 0 0 4 (omega arith) (Triple-Keeps (Keeps-pure _))
  by_phase-Advances LeasePhase.failed lease =
      Advances-up 0 0 4 (omega arith) (Triple-Keeps (Keeps-pure _))
  by_phase-Advances LeasePhase.expired lease =
      Advances-up 0 0 4 (omega arith) (Triple-Keeps (Keeps-pure _))
  by_phase-Advances LeasePhase.bound lease = reconcile_bound-Advances env lease
  by_phase-Advances LeasePhase.pending lease = reconcile_pending-Advances env lease
  by_phase-Advances LeasePhase.unset lease = reconcile_pending-Advances env lease

  finalize-Advances : (lease : DeviceLease) → Advances 0 4 (finalize (traced env) lease)
  unfolding finalize
  finalize-Advances lease =
      Triple-if _
        (Advances-bind 0 3 4 (omega arith) (release_device-Advances env lease) λ _.
          Advances-bind 3 4 4 (omega arith) (Advances-sending 3 3 _ _ refl (omega arith))
            λ _. Triple-Keeps (Keeps-pure _))
        (Advances-up 0 0 4 (omega arith) (Triple-Keeps (Keeps-pure _)))

  add_finalizer_first-Advances :
      (lease : DeviceLease) → Advances 0 4 (add_finalizer_first (traced env) lease)
  unfolding add_finalizer_first
  add_finalizer_first-Advances lease =
      Advances-bind 0 4 4 (omega arith) (Advances-sending 0 3 _ _ refl (omega arith))
        λ _. Triple-Keeps (Keeps-pure _)

  reconcile_found-Advances :
      (lease : Option DeviceLease) → Advances 0 4 (reconcile_found (traced env) lease)
  unfolding reconcile_found
  reconcile_found-Advances none = Advances-up 0 0 4 (omega arith) (Triple-Keeps (Keeps-pure _))
  reconcile_found-Advances (some lease) =
      Triple-if _ (finalize-Advances lease)
        (Triple-if _ (add_finalizer_first-Advances lease) (by_phase-Advances _ lease))

  reconcile-Advances : (key : ObjectKey) → Advances 0 4 (reconcile (traced env) key)
  unfolding reconcile
  reconcile-Advances key =
      Advances-bind 0 0 4 (omega arith) (Triple-Keeps (Keeps-optional (Keeps-silent _)))
        reconcile_found-Advances

  -- However the API server answers and wherever it fails, the writes of a reconcile of a lease are at
  -- most one of each stage, in the order of the stages: the deletion of an evicted device; then the
  -- creation of a device, or a write of a device's status, never both; then the deletion of a pod;
  -- last the write of the lease's status, or of its finalizers, never both.
  pub reconcile-Descends :
      (key : ObjectKey) (w : W)
      → Descends 4 (stages (reconcile (traced env) key (record { world = w; log = [] })).1.log)
  reconcile-Descends key w =
      (Triple-end (reconcile-Advances key) (record { world = w; log = [] })
        (record { logged = tt })).logged
