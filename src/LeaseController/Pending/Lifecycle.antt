-- ===== src/LeaseController/Pending/Lifecycle.antt =====
-- `reconcilePending` shows a lease as Bound only to a device that it has seen bound to the lease.
use android_device_farm.Common.{◌≡◌, refl, ap, true, Option, none, some, inl, String, List}
use android_device_farm.Go.Time.{Time}
use android_device_farm.Api.Device.{Device}
use android_device_farm.Api.DeviceLease.{DeviceLease, pending}
use android_device_farm.Kube.Hoare.{
  Keeps, Keeps-bind, Keeps-pure, Triple, Given, Triple-bind, Triple-Keeps, Triple-frame,
  Triple-unless_conflict, Keeps-Triple,
}
use android_device_farm.Kube.Client.{Env}
use android_device_farm.Kube.Laws.{StoresStatus}
use android_device_farm.Kube.Trace.{
  Event, Traced, traced, OnLog, Triple-seeing, Triple-sending, Triple-sending_seeing_told,
  Keeps-silent,
}
use android_device_farm.LeaseController.Select.{is_waiting}
use android_device_farm.LeaseController.Status.{with_status, write_status}
use android_device_farm.LeaseController.Capacity.Events.{ensure_capacity-Keeps}
use android_device_farm.LeaseController.Release.Lifecycle.{device_bound_to-Held}
use android_device_farm.LeaseController.Lifecycle.{
  waits, binds, StepFrom, Steps, Steps-capacity, Held,
}
use android_device_farm.LeaseController.Pending.{
  claimed, free_ready_device, publish_binding, bound_or_again, used_time, claim, claim_or_wait,
  bind_device, reconcile_pending,
}

module _ {W : Type 0} (env : Env W) (stores : StoresStatus env) (Read : DeviceLease → Type 0)
    (lease : DeviceLease) (read : Read lease) (waiting : is_waiting lease.status.phase ≡ true) where
  abbrev Sound : Traced W → Type 0
  Sound = OnLog (Steps Read)

  abbrev Own : Device → Traced W → Type 0
  Own d = OnLog (Held Read lease.metadata.name d)

  Own-Sound : (d : Device) (s : Traced W) → Own d s → Sound s
  Own-Sound d s h = record { logged = h.logged.0 }

  publish_binding-Sound :
      (d : Device) → Triple (Own d) (publish_binding (traced env) lease d) (λ _. Sound) Sound
  unfolding publish_binding write_status with_status
  publish_binding-Sound d = Triple-bind (Triple-frame (Own-Sound d) (Keeps-silent _)) λ now.
      Triple-bind
        (Triple-sending _ _ λ log h.
          ((lease, read, refl, refl, binds d waiting refl h.1.0 h.1.1 (refl, refl, refl)), h.0))
        λ _. Triple-Keeps (Keeps-bind (Keeps-silent _) λ later. Keeps-pure _)

  bound_or_again-Sound :
      (d : Option Device)
      → Triple (Given Sound Own d) (bound_or_again (traced env) lease d) (λ _. Sound) Sound
  unfolding bound_or_again
  bound_or_again-Sound none = Triple-Keeps (Keeps-pure _)
  bound_or_again-Sound (some d) = publish_binding-Sound d

  used_time-Sound : (t : Option Time) → Keeps Sound (used_time (traced env) t)
  unfolding used_time
  used_time-Sound none = Keeps-silent _
  used_time-Sound (some t) = Keeps-pure t

  claim-Sound : (d : Device) → Triple Sound (claim (traced env) lease d) (λ _. Sound) Sound
  unfolding claim
  claim-Sound d = Triple-bind (Triple-Keeps (used_time-Sound d.status.last_used_time)) λ used.
      Triple-bind
        (Triple-unless_conflict {Q = Own} (
          Triple-sending_seeing_told _ _ _
            (λ w u e log h. (
              h,
              (
                inl (inl refl),
                ap (λ s. s.lease_ref) (stores (claimed d lease.metadata.name used) w u e),
              ),
            ))
            (λ log h. h)))
        bound_or_again-Sound

  report_step :
      (reason msg : String) (log : List Event)
      → StepFrom Read (with_status env.machinery lease pending reason msg) log
  unfolding with_status
  report_step reason msg log = (lease, read, refl, refl, waits waiting refl (refl, refl, refl))

  claim_or_wait-Sound : (d : Option Device) → Keeps Sound (claim_or_wait (traced env) lease d)
  unfolding claim_or_wait
  claim_or_wait-Sound none =
      Keeps-bind
        (ensure_capacity-Keeps env (Steps Read) lease (Steps-capacity Read)
          (λ reason msg log h. (report_step reason msg log, h)))
        λ _. Keeps-pure _
  claim_or_wait-Sound (some d) = Keeps-Triple (claim-Sound d)

  bind_device-Sound :
      (d : Option Device)
      → Triple (Given Sound Own d) (bind_device (traced env) lease d) (λ _. Sound) Sound
  unfolding bind_device free_ready_device
  bind_device-Sound (some d) = publish_binding-Sound d
  bind_device-Sound none = Triple-Keeps (
      Keeps-bind
        (Keeps-bind
          (Keeps-Triple (Triple-seeing {J = λ _. Steps Read} _ _ (λ ds log h. h) (λ log h. h)))
          λ ds. Keeps-pure _)
        claim_or_wait-Sound)

  pub reconcile_pending-Sound : Keeps Sound (reconcile_pending (traced env) lease)
  unfolding reconcile_pending
  reconcile_pending-Sound =
      Keeps-Triple (Triple-bind (device_bound_to-Held env Read lease) bind_device-Sound)
