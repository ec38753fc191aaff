-- ===== src/Exclusion/Held.antt =====
-- What the reconciles do to the binding of a device is what a lock allows.
use android_device_farm.Common.{
  ◌≡◌, refl, sym, ap, ◌∙◌, subst, ◌≢◌, String, List, ◌∷◌, All-In, In, inl, inr,
}
use android_device_farm.Api.Meta.{key_of}
use android_device_farm.Api.Device.{Device}
use android_device_farm.Kube.Client.{Env}
use android_device_farm.Kube.Laws.{GetsByName}
use android_device_farm.Kube.Trace.{Event, sent_device_status, Seen}
use android_device_farm.DeviceController.Bindings.{Preserved}
use android_device_farm.DeviceController.Reconcile.Bindings.{reconcile-Preserved}
use android_device_farm.LeaseController.Exclusive.{Justified, claims, frees}
use android_device_farm.LeaseController.Reconcile.Devices.{reconcile-Justified}
use android_device_farm.Exclusion.Logs.{Justified-before, Preserved-before}
use android_device_farm.Exclusion.{
  version, History, states, holder, Actor, lease, device_controller, others, Takes, Step,
  lease_step, device_step, other_step, Run, Distinct, LockStep, keeps, takes, gives, LockRun,
}

-- A version names one state.
same_state :
    (h : History) (d : Device)
    → Distinct (states h)
    → In d (states h)
    → version d ≡ version h.current
    → d ≡ h.current
same_state h d distinct (inl e) v = e
same_state h d distinct (inr i) v = absurd (All-In _ h.past d distinct.0 i v)

-- What was read under the version that is current is the current state.
read_current :
    (h : History) (before : List Event) (sent stored d : Device)
    → Distinct (states h)
    → Takes h before sent stored
    → Seen d before
    → key_of sent.metadata ≡ key_of d.metadata
    → version sent ≡ version d
    → d ≡ h.current
read_current h before sent stored d distinct t seen k v =
    same_state h d distinct (t.reads d seen (sym k)) (sym v ∙ t.is_current)

stored_ref :
    {h : History} {before : List Event} {sent stored : Device}
    → Takes h before sent stored
    → stored.status.lease_ref ≡ sent.status.lease_ref
stored_ref t = rw t.stores refl

-- A reconcile of a lease takes the lock when it is free, or gives back its own.
Lease-LockStep :
    (name : String) (h : History) (before : List Event) (sent stored : Device)
    → Distinct (states h)
    → Takes h before sent stored
    → Justified name (sent_device_status sent ∷ before)
    → LockStep (lease name) (holder h) stored.status.lease_ref
Lease-LockStep name h before sent stored distinct t ((d, (seen, claims free _ _ mine same)), _) =
    let now =
      read_current h before sent stored d distinct t seen (rw same.0 refl) (rw same.0 refl) in
    rw (stored_ref t, mine, sym now, free) (takes name)
Lease-LockStep name h before sent stored distinct t ((d, (seen, frees mine free same)), _) =
    let now =
      read_current h before sent stored d distinct t seen (rw same.0 refl) (rw same.0 refl) in
    rw (stored_ref t, free, sym now, mine) (gives name)

-- A reconcile of the device leaves it as it is.
Device-LockStep :
    (h : History) (before : List Event) (sent stored : Device)
    → Distinct (states h)
    → Takes h before sent stored
    → Preserved (sent_device_status sent ∷ before)
    → LockStep device_controller (holder h) stored.status.lease_ref
Device-LockStep h before sent stored distinct t ((d, (seen, (k, v, ref, _))), _) =
    let now = read_current h before sent stored d distinct t seen k v in
    rw (stored_ref t, ref, now) (keeps device_controller (holder h))

module _ {W : Type 0} (env : Env W) where
  Step-Distinct :
      {h h' : History} {actor : Actor}
      → Step env h actor h'
      → Distinct (states h)
      → Distinct (states h')
  Step-Distinct (lease_step key w after before sent stored e t) d = (t.fresh, d)
  Step-Distinct (device_step key w after before sent stored e t) d = (t.fresh, d)
  Step-Distinct (other_step stored e fresh) d = (fresh, d)

  Step-LockStep :
      {h h' : History} {actor : Actor}
      → GetsByName env
      → Distinct (states h)
      → Step env h actor h'
      → LockStep actor (holder h) (holder h')
  Step-LockStep {h} gets d (lease_step key w after before sent stored e t) =
      Lease-LockStep key.name h before sent stored d t (
        Justified-before key.name after (sent_device_status sent ∷ before)
          (subst (Justified key.name) e (reconcile-Justified env gets key w)))
  Step-LockStep {h} gets d (device_step key w after before sent stored e t) =
      Device-LockStep h before sent stored d t (
        Preserved-before after (sent_device_status sent ∷ before)
          (subst Preserved e (reconcile-Preserved env key w)))
  Step-LockStep {h} gets d (other_step stored e fresh) = rw e (keeps others (holder h))

  Run-Distinct :
      {h h' : History} {actors : List Actor}
      → Run env h actors h'
      → Distinct (states h)
      → Distinct (states h')
  Run-Distinct Run.here d = d
  Run-Distinct (Run.and_then r s) d = Step-Distinct s (Run-Distinct r d)

  -- From a device whose states have versions of their own, every sequence of device statuses that the
  -- server takes from reconciles of leases and of the device, with writes by others of anything but
  -- the status in between, moves the lease reference as a lock: a lease takes it when it is free, only
  -- its holder gives it back, and the device controller leaves it alone.
  pub Run-LockRun :
      {h h' : History} {actors : List Actor}
      → GetsByName env
      → Distinct (states h)
      → Run env h actors h'
      → LockRun (holder h) actors (holder h')
  Run-LockRun gets d Run.here = LockRun.here
  Run-LockRun gets d (Run.and_then r s) =
      LockRun.and_then (Run-LockRun gets d r) (Step-LockStep gets (Run-Distinct r d) s)

-- Nobody but its holder gives the lock back.
LockStep-held :
    {actor : Actor} {x y : String} → LockStep actor x y → x ≢ "" → lease x ≢ actor → y ≡ x
LockStep-held (keeps actor x) held other = refl
LockStep-held (takes l) held other = absurd (held refl)
LockStep-held (gives l) held other = absurd (other refl)

LockRun-held :
    {x : String} {actors : List Actor} {y : String}
    → LockRun x actors y
    → x ≢ ""
    → ¬ In (lease x) actors
    → y ≡ x
LockRun-held LockRun.here held out = refl
LockRun-held {x} (LockRun.and_then r s) held out =
    let same = LockRun-held r held (λ i. out (inr i)) in
    LockStep-held s (λ e. held (sym same ∙ e)) (λ e. out (inl (ap lease (sym same) ∙ e))) ∙ same

module _ {W : Type 0} (env : Env W) where
  -- Where `Get` returns the lease of the name that it is asked for, and no two states of the device
  -- have the same version: a device that a lease holds stays with it through every sequence of device
  -- statuses that the server takes from reconciles of other leases and of the device, in whatever order
  -- and however old what they have read, with writes by others of anything but the status in between.
  pub Run-held :
      {h h' : History} {actors : List Actor}
      → GetsByName env
      → Distinct (states h)
      → holder h ≢ ""
      → Run env h actors h'
      → ¬ In (lease (holder h)) actors
      → holder h' ≡ holder h
  Run-held gets d held r out = LockRun-held (Run-LockRun env gets d r) held out
