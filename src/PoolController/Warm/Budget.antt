-- ===== src/PoolController/Warm/Budget.antt =====
-- The inner warm-up loop stays within its budget, creates what it counts, and runs to its end.
use android_device_farm.Common.{
  ℕ, zero, suc, ◌+◌, ◌<◌, ◌≤◌, ◌≡◌, refl, ◌⊎◌, ◌&&◌, true, false, arith, Bool-cases, inl, inr,
}
use android_device_farm.Go.Int32.{int32_mod, int32_max, inc32, lt32}
use android_device_farm.Api.DeviceClass.{DeviceClass}
use android_device_farm.Api.DevicePool.{DevicePool}
use android_device_farm.Kube.Effect.{Result, ok, err, panicked, continue, ◌>>=◌}
use android_device_farm.Kube.Client.{Env}
use android_device_farm.PoolController.Provision.{create_device}
use android_device_farm.PoolController.Warm.{rounds, warm_loop}

-- How the loop ended, from `have` and `total`; nothing is said of an error.
abbrev pub Warmed : {W : Type 0} → ℕ → ℕ → ℕ → ℕ → Result (ℕ × ℕ) × W → Type 0
Warmed min_warm budget have total (ok (have', total'), w) =
    (have ≤ have')
    × (total' + have ≡ total + have')
    × ((total' ≡ total) ⊎ (total' ≤ budget))
    × ((have' ≡ have) ⊎ (have' ≤ min_warm))
    × (lt32 have' min_warm && lt32 total' budget ≡ false)
Warmed min_warm budget have total (err e, w) = Unit
Warmed min_warm budget have total (panicked, w) = Unit

-- What the tests of one round say, for bounds that are not negative.
pub round_facts :
    (min_warm budget have total : ℕ)
    → have < int32_max
    → total < int32_max
    → min_warm < int32_max
    → budget < int32_mod
    → (lt32 have min_warm && lt32 total budget) ≡ true
    → (have < min_warm) × (total < budget) × (budget < int32_max)
round_facts min_warm budget have total h t m b go = ground arith

Warmed-step :
    {W : Type 0} (min_warm budget have total : ℕ) (r : Result (ℕ × ℕ) × W)
    → have < min_warm
    → total < budget
    → min_warm < int32_max
    → budget < int32_max
    → Warmed min_warm budget (inc32 have) (inc32 total) r
    → Warmed min_warm budget have total r
Warmed-step min_warm budget have total (ok (have', total'), w) h t m b s =
    (omega arith, omega arith, omega arith, omega arith, s.4)
Warmed-step min_warm budget have total (err e, w) h t m b s = tt
Warmed-step min_warm budget have total (panicked, w) h t m b s = tt

Warmed-continue :
    {W : Type 0} (min_warm budget have total : ℕ) (f : W → Result (ℕ × ℕ) × W) (r : Result Unit × W)
    → ((w : W) → Warmed min_warm budget have total (f w))
    → Warmed min_warm budget have total (continue (λ _. f) r)
Warmed-continue min_warm budget have total f (ok a, w) h = h w
Warmed-continue min_warm budget have total f (err e, w) h = tt
Warmed-continue min_warm budget have total f (panicked, w) h = tt

module _ {W : Type 0} (env : Env W) (pool : DevicePool) (dc : DeviceClass)
    (min_warm budget : ℕ) where
  warm_loop-Warmed :
      (k have total : ℕ) (w : W)
      → have < int32_max
      → total < int32_max
      → min_warm < int32_max
      → budget < int32_mod
      → min_warm ≤ have + k
      → Warmed min_warm budget have total (warm_loop env k pool dc min_warm budget have total w)
  unfolding warm_loop ◌>>=◌ create_device
  warm_loop-Warmed zero have total w h t m b enough =
      (omega arith, refl, inl refl, inl refl, ground arith)
  warm_loop-Warmed (suc k) have total w h t m b enough =
      elim (Bool-cases (lt32 have min_warm && lt32 total budget)) [
        | inr stop ↦ rw stop (omega arith, refl, inl refl, inl refl, stop)
        | inl go ↦
            let (below, room, fits) = round_facts min_warm budget have total h t m b go in
            rw go (
              Warmed-step min_warm budget have total _ below room m fits (
                Warmed-continue min_warm budget (inc32 have) (inc32 total)
                  (warm_loop env k pool dc min_warm budget (inc32 have) (inc32 total))
                  (create_device env pool dc w)
                  (λ w'.
                    warm_loop-Warmed k (inc32 have) (inc32 total) w' (omega arith) (omega arith) m b
                      (omega arith))))
      ]

  -- The loop with the rounds that `Reconcile` gives it, from counts and a `minWarm` that are not
  -- negative: if no call failed it ended because `minWarm` is met or the budget is used up, it
  -- never counted a device past `minWarm` or past the budget, and `total` grew as `have` did.
  pub warm_loop_within_budget :
      (have total : ℕ) (w : W)
      → have < int32_max
      → total < int32_max
      → min_warm < int32_max
      → budget < int32_mod
      → Warmed min_warm budget have total
          (warm_loop env (rounds have min_warm) pool dc min_warm budget have total w)
  warm_loop_within_budget have total w h t m b =
      warm_loop-Warmed (rounds have min_warm) have total w h t m b (omega arith)
