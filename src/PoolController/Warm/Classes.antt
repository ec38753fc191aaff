-- ===== src/PoolController/Warm/Classes.antt =====
-- How many devices the outer warm-up loop asks for, over all classes of the pool.
use android_device_farm.Common.{
  ℕ, zero, suc, ◌+◌, ◌-◌, ◌<◌, ◌≤◌, ◌≡◌, Bool, ◌&&◌, true, Option, none, some, List, [], ◌∷◌,
  length, count, length-keep, count-le-length, is_none, arith, Bool-cases, inl, inr,
}
use android_device_farm.Go.Int32.{int32_mod, int32_max, inc32, sub32, lt32}
use android_device_farm.Api.Device.{Device}
use android_device_farm.Api.DeviceClass.{DeviceClass}
use android_device_farm.Api.DevicePool.{DevicePool, PoolClass}
use android_device_farm.Kube.Client.{Env}
use android_device_farm.Kube.Hoare.{
  Keeps-lift, Keeps-pure, Keeps-optional, Triple, Triple-bind, Triple-frame, Triple-pure,
  Triple-weaken, Triple-post, Triple-end,
}
use android_device_farm.Kube.Trace.{
  Event, created_device, Traced, traced, OnLog, Triple-sending, Keeps-silent,
}
use android_device_farm.LeaseController.Select.{active_devices}
use android_device_farm.PoolController.Provision.{create_device}
use android_device_farm.PoolController.Warm.{
  ByClass, active_by_class, total_from, warm_loop, warm_class, warm_classes,
}
use android_device_farm.PoolController.Warm.Creations.{is_creation, spare}
use android_device_farm.PoolController.Warm.Grouping.{total-active}

-- What was created and what the budget leaves from `total` on are together within `d`.
abbrev Within : ℕ → ℕ → ℕ → List Event → Type 0
Within budget d total log = (count is_creation log + spare budget total ≤ d) × (total < int32_max)

abbrev AtMost : ℕ → List Event → Type 0
AtMost d log = count is_creation log ≤ d

-- A round that the budget allows uses one device of it.
round_spare :
    (budget total : ℕ)
    → total < int32_max
    → budget < int32_mod
    → lt32 total budget ≡ true
    → (inc32 total < int32_max) × (spare budget total ≡ suc (spare budget (inc32 total)))
round_spare budget total t b go = ground arith

module _ {W : Type 0} (env : Env W) (pool : DevicePool) (budget d : ℕ)
    (b : budget < int32_mod) where
  abbrev Left : ℕ → Traced W → Type 0
  Left total = OnLog (Within budget d total)

  abbrev Bounded : Traced W → Type 0
  Bounded = OnLog (AtMost d)

  Left-Bounded : (total : ℕ) (s : Traced W) → Left total s → Bounded s
  Left-Bounded total s h = record { logged = omega (arith, h.logged.0) }

  create_device-Left :
      (dc : DeviceClass) (total : ℕ)
      → total < int32_max
      → lt32 total budget ≡ true
      → Triple (Left total) (create_device (traced env) pool dc) (λ _. Left (inc32 total)) Bounded
  unfolding create_device
  create_device-Left dc total t go =
      let (t', uses) = round_spare budget total t b go in
      Triple-bind (Triple-frame (Left-Bounded total) (Keeps-lift _)) λ owned.
        Triple-bind
          (Triple-weaken (Left-Bounded (inc32 total))
            (Triple-sending (created_device _) _ λ log h. (omega (arith, uses, h.0), t')))
          λ _. Triple-frame (Left-Bounded (inc32 total)) (Keeps-pure tt)

  warm_loop-Left :
      (dc : DeviceClass) (min_warm k have total : ℕ)
      → Triple
          (Left total)
          (warm_loop (traced env) k pool dc min_warm budget have total)
          (λ r. Left r.1)
          Bounded
  unfolding warm_loop
  warm_loop-Left dc min_warm zero have total = record { run = λ s h. h }
  warm_loop-Left dc min_warm (suc k) have total =
      elim (Bool-cases (lt32 have min_warm && lt32 total budget)) [
        | inr stop ↦ record { run = λ s h. rw stop h }
        | inl go ↦ record {
          run = λ s h. rw go (
              (Triple-bind (create_device-Left dc total h.logged.1 (ground (arith, go)))
                  λ _. warm_loop-Left dc min_warm k (inc32 have) (inc32 total)).run
                s h);
        }
      ]

  warm_class-Left :
      (pc : PoolClass) (have total : ℕ) (missing : Bool) (dc : Option DeviceClass)
      → Triple
          (Left total)
          (warm_class (traced env) pool pc budget have total missing dc)
          (λ r. Left r.0)
          Bounded
  unfolding warm_class
  warm_class-Left pc have total missing none = Triple-pure _
  warm_class-Left pc have total missing (some dc) =
      Triple-bind (warm_loop-Left dc pc.min_warm _ have total) λ r. Triple-pure _

  warm_classes-Left :
      (active : ByClass) (classes : List PoolClass) (total : ℕ) (missing : Bool)
      → Triple
          (Left total)
          (warm_classes (traced env) pool active budget classes total missing)
          (λ r. Left r.0)
          Bounded
  unfolding warm_classes
  warm_classes-Left active [] total missing = Triple-pure _
  warm_classes-Left active (pc ∷ classes) total missing =
      Triple-bind (Triple-frame (Left-Bounded total) (Keeps-optional (Keeps-silent _))) λ dc.
        Triple-bind (warm_class-Left pc _ total missing dc)
          λ r. warm_classes-Left active classes r.0 r.1

abbrev is_live : Device → Bool
is_live d = is_none d.metadata.deletion_timestamp

module _ {W : Type 0} (env : Env W) (pool : DevicePool) where
  -- A reserve that is not negative leaves of `maxConcurrent` what it does not take.
  spare-sub32 :
      (m reserved n : ℕ)
      → m < int32_max
      → reserved < int32_max
      → spare (sub32 m reserved) n ≤ m - reserved - n
  spare-sub32 m reserved n hm hr = ground arith

  length-active : (devices : List Device) → length (active_devices devices) ≤ length devices
  unfolding active_devices
  length-active devices =
      omega (arith, length-keep is_live devices, count-le-length is_live devices)

  -- For a `maxConcurrent` and a reservation that are not negative, and fewer than 2 ^ 31 listed
  -- devices: over all classes, however it ends and whatever the API server answers, the loop asks for
  -- no more devices than `maxConcurrent` has left beyond the reservation and the listed devices that
  -- are not being deleted.
  pub warm_classes-fits :
      (devices : List Device) (classes : List PoolClass) (reserved : ℕ) (missing : Bool) (w : W)
      → pool.spec.max_concurrent < int32_max
      → reserved < int32_max
      → length devices < int32_max
      → count is_creation
          (warm_classes
            (traced env)
            pool
            (active_by_class devices)
            (sub32 pool.spec.max_concurrent reserved)
            classes
            (total_from 0 (active_by_class devices))
            missing
            (record { world = w; log = [] })).1.log
        ≤ pool.spec.max_concurrent - reserved - length (active_devices devices)
  warm_classes-fits devices classes reserved missing w hm hr hl =
      let n = total_from 0 (active_by_class devices) in
      let few = length-active devices in
      let counted = total-active devices in
      let room = spare-sub32 pool.spec.max_concurrent reserved n hm hr in
      let budget = sub32 pool.spec.max_concurrent reserved in
      let left = pool.spec.max_concurrent - reserved - n in
      let b : budget < int32_mod = omega arith in
      let made =
        (Triple-end
          (Triple-post (λ r. Left-Bounded env pool budget left b r.0)
            (warm_classes-Left env pool budget left b (active_by_class devices) classes n missing))
          (record { world = w; log = [] })
          (record { logged = (omega (arith, room), omega (arith, few, counted)) })).logged in
      omega (arith, made, few, counted)
