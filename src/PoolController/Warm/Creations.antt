-- ===== src/PoolController/Warm/Creations.antt =====
-- How many devices the inner warm-up loop asks for, however it ends.
use android_device_farm.Common.{
  ℕ, zero, suc, ◌+◌, ◌-◌, ◌<◌, ◌≤◌, Bool, ◌&&◌, true, false, List, [], count, ltb, arith,
  Bool-cases, inl, inr, if◌then◌else◌,
}
use android_device_farm.Go.Int32.{int32_mod, int32_max, inc32, lt32}
use android_device_farm.Api.DeviceClass.{DeviceClass}
use android_device_farm.Api.DevicePool.{DevicePool}
use android_device_farm.Kube.Client.{Env}
use android_device_farm.Kube.Hoare.{
  Keeps-lift, Keeps-pure, Triple, Triple-bind, Triple-frame, Triple-Keeps, Triple-weaken,
  Triple-end,
}
use android_device_farm.Kube.Trace.{Event, created_device, Traced, traced, OnLog, Triple-sending}
use android_device_farm.PoolController.Provision.{create_device}
use android_device_farm.PoolController.Warm.{rounds, warm_loop}
use android_device_farm.PoolController.Warm.Budget.{round_facts}

abbrev pub is_creation : Event → Bool
is_creation (created_device d) = true
is_creation _ = false

-- The log has at most so many creations, by either bound.
abbrev pub AtMost : ℕ → ℕ → List Event → Type 0
AtMost a b log = (count is_creation log ≤ a) × (count is_creation log ≤ b)

AtMost-weaken :
    (a b a' b' : ℕ) → a ≤ a' → b ≤ b' → (log : List Event) → AtMost a b log → AtMost a' b' log
AtMost-weaken a b a' b' ha hb log h = omega arith

-- What the budget leaves, nothing where it is below zero.
abbrev pub spare : ℕ → ℕ → ℕ
spare budget total = if ltb budget int32_max then budget - total else 0

module _ {W : Type 0} (env : Env W) (pool : DevicePool) (dc : DeviceClass) where
  create_device-AtMost :
      (a b : ℕ)
      → Triple
          (OnLog (AtMost a b))
          (create_device (traced env) pool dc)
          (λ _. OnLog (AtMost (suc a) (suc b)))
          (OnLog (AtMost (suc a) (suc b)))
  unfolding create_device
  create_device-AtMost a b =
      Triple-bind
        (Triple-frame
          (λ s h. record {
            logged = AtMost-weaken a b (suc a) (suc b) (omega arith) (omega arith) s.log h.logged;
          })
          (Keeps-lift _))
        λ owned.
          Triple-bind (Triple-sending _ _ λ log h. ground arith) λ _. Triple-Keeps (Keeps-pure tt)

  module _ (min_warm budget c d : ℕ) (m : min_warm < int32_max) (f : budget < int32_mod) where
    abbrev Bounded : ℕ → ℕ → Traced W → Type 0
    Bounded a b = OnLog (AtMost a b)

    Bounded-weaken : (a b : ℕ) → a ≤ c → b ≤ d → (s : Traced W) → Bounded a b s → Bounded c d s
    Bounded-weaken a b ha hb s h = record { logged = AtMost-weaken a b c d ha hb s.log h.logged }

    warm_loop-AtMost :
        (k a b have total : ℕ)
        → have < int32_max
        → total < int32_max
        → a + (min_warm - have) ≤ c
        → b + spare budget total ≤ d
        → Triple
            (Bounded a b)
            (warm_loop (traced env) k pool dc min_warm budget have total)
            (λ _. Bounded c d)
            (Bounded c d)
    unfolding warm_loop
    warm_loop-AtMost zero a b have total h t ha hb = record {
      run = λ s. Bounded-weaken a b (omega arith) (omega arith) s;
    }
    warm_loop-AtMost (suc k) a b have total h t ha hb =
        elim (Bool-cases (lt32 have min_warm && lt32 total budget)) [
          | inr stop ↦ record {
            run = λ s g. rw stop (Bounded-weaken a b (omega arith) (omega arith) s g);
          }
          | inl go ↦
              let (below, room, fits) = round_facts min_warm budget have total h t m f go in
              record {
                run = λ s g. rw go (
                    (Triple-bind
                        (Triple-weaken (Bounded-weaken (suc a) (suc b) (omega arith) (ground arith))
                          (create_device-AtMost a b))
                        λ _.
                          warm_loop-AtMost k (suc a) (suc b) (inc32 have) (inc32 total)
                            (omega arith) (omega arith) (omega arith) (ground arith)).run
                      s g);
              }
        ]

  -- From counts that are not negative, and with a `minWarm` that is not negative, the inner loop,
  -- however it ends and whatever the API server answers, asks for at most `minWarm - have`
  -- devices and for at most `budget - total`; for none where the budget is below zero.
  pub warm_loop-creations :
      (min_warm budget have total : ℕ) (w : W)
      → have < int32_max
      → total < int32_max
      → min_warm < int32_max
      → budget < int32_mod
      → let made =
          count is_creation
            (warm_loop
              (traced env)
              (rounds have min_warm)
              pool
              dc
              min_warm
              budget
              have
              total
              (record { world = w; log = [] })).1.log in
        (made ≤ min_warm - have) × (made ≤ spare budget total)
  warm_loop-creations min_warm budget have total w h t m f =
      (Triple-end
        (warm_loop-AtMost min_warm budget (min_warm - have) (spare budget total) m f
          (rounds have min_warm) 0 0 have total h t (omega arith) (omega arith))
        (record { world = w; log = [] }) (record { logged = (omega arith, omega arith) })).logged
