-- ===== src/LeaseController/Capacity/Room.antt =====
-- When `ensureCapacity` creates a device and when it evicts one.
use android_device_farm.Common.{
  ℕ, String, ◌≡◌, refl, ◌⊎◌, Bool, true, false, Option, none, some, List, [], ◌∷◌, length,
  Bool-cases, inl, inr, arith,
}
use android_device_farm.Go.Int32.{to_int32, lt32}
use android_device_farm.Api.Device.{Device}
use android_device_farm.Api.DeviceClass.{DeviceClass}
use android_device_farm.Api.DeviceLease.{DeviceLease}
use android_device_farm.Api.DevicePool.{DevicePool, EvictionPolicy, lru_idle}
use android_device_farm.Kube.Hoare.{
  Keeps, Keeps-bind, Keeps-pure, Keeps-lift, Triple, Triple-bind, Triple-frame, Triple-Keeps,
  Triple-optional_same, Triple-weaken, Triple-pre, Keeps-Triple,
}
use android_device_farm.Kube.Client.{Env}
use android_device_farm.Kube.Effect.{◌>>◌}
use android_device_farm.Kube.Trace.{
  Event, created_device, deleted_device, Traced, traced, OnLog, Keeps-sending, Triple-sending,
}
use android_device_farm.PoolController.Provision.{create_device}
use android_device_farm.LeaseController.Status.{write_status}
use android_device_farm.LeaseController.Select.{
  active_devices, unclaimed_supply, lru_idle_other_class,
}
use android_device_farm.LeaseController.Capacity.{
  report, evict, evict_or_wait, victim_under, make_room,
}

abbrev pub just_deleted : List Event → Bool
just_deleted (deleted_device v ∷ log) = true
just_deleted _ = false

module _ (pool : DevicePool) (class : String) (devices : List Device) (demand : ℕ) where
  -- The leases that wait for the class are more than the devices that are free for them.
  abbrev pub IsShort : Type 0
  IsShort = lt32 (unclaimed_supply devices class) demand ≡ true

  abbrev pub has_room : Bool
  has_room = lt32 (to_int32 (length (active_devices devices))) pool.spec.max_concurrent

  -- Each creation in the log has room in the pool, or follows an eviction at once; each eviction is
  -- of the pool's least recently used idle device of another class, in a full pool whose policy allows
  -- it; both happen only while the class is short of devices.
  abbrev pub Warranted : List Event → Type 0
  Warranted [] = Unit
  Warranted (created_device d ∷ log) =
      (IsShort × ((has_room ≡ true) ⊎ (just_deleted log ≡ true))) × Warranted log
  Warranted (deleted_device v ∷ log) =
      (IsShort
        × (has_room ≡ false)
        × (pool.spec.eviction_policy ≡ lru_idle)
        × (lru_idle_other_class devices class ≡ some v))
      × Warranted log
  Warranted (e ∷ log) = Warranted log

  -- A creation is in order next.
  abbrev Open : List Event → Type 0
  Open log = (IsShort × ((has_room ≡ true) ⊎ (just_deleted log ≡ true))) × Warranted log

victim_under-some :
    (policy : EvictionPolicy) (devices : List Device) (class : String) (v : Device)
    → victim_under policy devices class ≡ some v
    → (policy ≡ lru_idle) × (lru_idle_other_class devices class ≡ some v)
victim_under-some policy devices class v e = ground arith

module _ {W : Type 0} (env : Env W) (pool : DevicePool) (dc : DeviceClass) (lease : DeviceLease)
    (devices : List Device) (demand : ℕ) where
  abbrev Fits : List Event → Type 0
  Fits = Warranted pool lease.spec.class_ref devices demand

  abbrev Opens : List Event → Type 0
  Opens = Open pool lease.spec.class_ref devices demand

  Opens-Fits : (s : Traced W) → OnLog Opens s → OnLog Fits s
  Opens-Fits s h = record { logged = h.logged.1 }

  report-Fits : (reason msg : String) → Keeps (OnLog Fits) (report (traced env) lease reason msg)
  unfolding report write_status
  report-Fits reason msg = Keeps-bind (Keeps-sending _ _ λ log h. h) λ _. Keeps-pure tt

  create_device-Fits :
      Triple (OnLog Opens) (create_device (traced env) pool dc) (λ _. OnLog Fits) (OnLog Fits)
  unfolding create_device
  create_device-Fits =
      Triple-bind (Triple-frame Opens-Fits (Keeps-lift _))
        λ owned. Triple-bind (Triple-sending _ _ λ log h. h) λ _. Triple-Keeps (Keeps-pure tt)

  create-Fits :
      (reason msg : String)
      → Triple
          (OnLog Opens)
          (create_device (traced env) pool dc >> report (traced env) lease reason msg)
          (λ _. OnLog Fits)
          (OnLog Fits)
  create-Fits reason msg = Triple-bind create_device-Fits λ _. Triple-Keeps (report-Fits reason msg)

  evict-Fits :
      (v : Device)
      → IsShort pool lease.spec.class_ref devices demand
      → has_room pool lease.spec.class_ref devices demand ≡ false
      → pool.spec.eviction_policy ≡ lru_idle
      → lru_idle_other_class devices lease.spec.class_ref ≡ some v
      → Keeps (OnLog Fits) (evict (traced env) pool dc lease v)
  unfolding evict
  evict-Fits v short full policy oldest = Keeps-Triple (
      Triple-bind
        (Triple-weaken Opens-Fits (
          Triple-optional_same (
            Triple-sending {J = Opens} _ _
              λ log h. ((short, inr refl), ((short, full, policy, oldest), h)))))
        λ _. create-Fits _ _)

  evict_or_wait-Fits :
      (victim : Option Device)
      → IsShort pool lease.spec.class_ref devices demand
      → has_room pool lease.spec.class_ref devices demand ≡ false
      → victim_under pool.spec.eviction_policy devices lease.spec.class_ref ≡ victim
      → Keeps (OnLog Fits) (evict_or_wait (traced env) pool dc lease victim)
  unfolding evict_or_wait
  evict_or_wait-Fits none short full e = report-Fits _ _
  evict_or_wait-Fits (some v) short full e =
      let (policy, oldest) =
        victim_under-some pool.spec.eviction_policy devices lease.spec.class_ref v e in
      evict-Fits v short full policy oldest

  make_room-Fits : Keeps (OnLog Fits) (make_room (traced env) pool dc lease devices demand)
  unfolding make_room
  make_room-Fits = elim (Bool-cases (lt32 (unclaimed_supply devices lease.spec.class_ref) demand)) [
    | inr enough ↦ rw enough (report-Fits _ _)
    | inl short ↦ elim (Bool-cases (has_room pool lease.spec.class_ref devices demand)) [
      | inl room ↦
          rw (short, room)
            (Keeps-Triple (
              Triple-pre (λ s h. record { logged = ((short, inl room), h.logged) })
                (create-Fits _ _)))
      | inr full ↦ rw (short, full) (evict_or_wait-Fits _ short full refl)
    ]
  ]

  -- From the devices of the pool and the demand for the class on, and whatever the API server
  -- answers, `ensureCapacity` creates a device only while the class is short of devices, and then
  -- only if the active devices are fewer than `maxConcurrent` or right after it sent a deletion;
  -- and it deletes only in a full pool with the policy LruIdle, the least recently used idle device
  -- of another class.
  pub make_room-Warranted :
      (w : W)
      → Warranted pool lease.spec.class_ref devices demand
          (make_room
            (traced env)
            pool
            dc
            lease
            devices
            demand
            (record { world = w; log = [] })).1.log
  make_room-Warranted w =
      (make_room-Fits.run (record { world = w; log = [] }) (record { logged = tt })).logged
