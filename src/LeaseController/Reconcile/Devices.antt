-- ===== src/LeaseController/Reconcile/Devices.antt =====
-- What a reconcile of a lease writes to devices.
use android_device_farm.Common.{◌≡◌, refl, Option, none, some, [], subst}
use android_device_farm.Api.Meta.{ObjectKey}
use android_device_farm.Api.DeviceLease.{DeviceLease, LeasePhase}
use android_device_farm.Kube.Hoare.{
  Keeps, Keeps-bind, Keeps-pure, Keeps-if, Triple, Given, Triple-Keeps, Triple-bind,
  Triple-optional, Keeps-Triple,
}
use android_device_farm.Kube.Laws.{GetsByName}
use android_device_farm.Kube.Client.{Env}
use android_device_farm.Kube.Trace.{Traced, traced, OnLog, Triple-silent}
use android_device_farm.LeaseController.Release.Frees.{release_device-Fair}
use android_device_farm.LeaseController.Pending.Claims.{reconcile_pending-Fair}
use android_device_farm.LeaseController.Bound.Beats.{reconcile_bound-Fair}
use android_device_farm.LeaseController.Exclusive.{Justified, Keeps-quiet}
use android_device_farm.LeaseController.Reconcile.{
  finalize, add_finalizer_first, by_phase, reconcile_found, reconcile,
}

module _ {W : Type 0} (env : Env W) (lease : DeviceLease) where
  abbrev IsFair : Traced W → Type 0
  IsFair = OnLog (Justified lease.metadata.name)

  finalize-Fair : Keeps IsFair (finalize (traced env) lease)
  unfolding finalize
  finalize-Fair =
      Keeps-if _
        (Keeps-bind (release_device-Fair env lease)
          λ _. Keeps-bind (Keeps-quiet lease.metadata.name _ _ refl) λ _. Keeps-pure _)
        (Keeps-pure _)

  add_finalizer_first-Fair : Keeps IsFair (add_finalizer_first (traced env) lease)
  unfolding add_finalizer_first
  add_finalizer_first-Fair = Keeps-bind (Keeps-quiet lease.metadata.name _ _ refl) λ _. Keeps-pure _

  by_phase-Fair : (p : LeasePhase) → Keeps IsFair (by_phase (traced env) p lease)
  unfolding by_phase
  by_phase-Fair LeasePhase.released = Keeps-pure _
  by_phase-Fair LeasePhase.failed = Keeps-pure _
  by_phase-Fair LeasePhase.expired = Keeps-pure _
  by_phase-Fair LeasePhase.bound = reconcile_bound-Fair env lease
  by_phase-Fair LeasePhase.pending = reconcile_pending-Fair env lease
  by_phase-Fair LeasePhase.unset = reconcile_pending-Fair env lease

  reconcile_found-Fair : Keeps IsFair (reconcile_found (traced env) (some lease))
  unfolding reconcile_found
  reconcile_found-Fair =
      Keeps-if _ finalize-Fair (Keeps-if _ add_finalizer_first-Fair (by_phase-Fair _))

module _ {W : Type 0} (env : Env W) (gets : GetsByName env) (key : ObjectKey) where
  abbrev IsFairTo : Traced W → Type 0
  IsFairTo = OnLog (Justified key.name)

  abbrev IsNamed : DeviceLease → Type 0
  IsNamed lease = lease.metadata.name ≡ key.name

  reconcile-IsNamed-Fair :
      (lease : Option DeviceLease)
      → Triple
          (Given IsFairTo (λ l s. IsFairTo s × IsNamed l) lease)
          (reconcile_found (traced env) lease)
          (λ _. IsFairTo)
          IsFairTo
  unfolding reconcile_found
  reconcile-IsNamed-Fair none = Triple-Keeps (Keeps-pure _)
  reconcile-IsNamed-Fair (some lease) = record {
    run = λ s h.
        (Triple-Keeps (
            subst (λ n. Keeps (OnLog (Justified n)) (reconcile_found (traced env) (some lease))) h.1
              (reconcile_found-Fair env lease))).run
          s h.0;
  }

  reconcile-Fair : Keeps IsFairTo (reconcile (traced env) key)
  unfolding reconcile
  reconcile-Fair = Keeps-Triple (
      Triple-bind
        (Triple-optional
          (Triple-silent (Justified key.name) IsNamed (env.get_lease key) (gets key)))
        reconcile-IsNamed-Fair)

  -- Where `Get` returns the lease of the name that it is asked for: a reconcile of a lease, whatever
  -- else the API server answers and whatever others do to the cluster meanwhile, sends a device
  -- status only over a device that it read before, and either claims a free Ready device for this
  -- lease or releases a device that is bound to this lease.
  pub reconcile-Justified :
      (w : W)
      → Justified key.name (reconcile (traced env) key (record { world = w; log = [] })).1.log
  reconcile-Justified w =
      (reconcile-Fair.run (record { world = w; log = [] }) (record { logged = tt })).logged
