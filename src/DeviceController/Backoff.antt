-- ===== src/DeviceController/Backoff.antt =====
-- `backoffDuration` of device_controller.go, on the bits of an `int64`.
use android_device_farm.Common.{
  ℕ, zero, suc, ◌+◌, ◌-◌, ◌*◌, ◌%◌, ◌^◌, ◌<◌, ◌≤◌, ◌≡◌, refl, Bool, true, ◌&&◌, ◌||◌, arith, ltb,
  leb, ◌==◌, if◌then◌else◌, ap, Bool-cases, inl, inr, ==_iff,
}
use native.Mathlib.Nat.{pow-suc, one-le-pow}
use android_device_farm.Common.Int.{ℤ, pos, negsuc}
use android_device_farm.Go.Time.{Duration, second, minute}
use android_device_farm.Kube.Effect.{Result, ok, panicked}

abbrev pub recreate_backoff_base : ℕ
recreate_backoff_base = 10 * second

abbrev pub recreate_backoff_max : ℕ
recreate_backoff_max = 5 * minute

-- `recreateBackoffBase << failures`: the low 64 bits
abbrev shift_base : ℕ → ℕ
shift_base n = (recreate_backoff_base * 2 ^ n) % 2 ^ 64

-- `d <= 0 || d > recreateBackoffMax` on an `int64` given by its bits
abbrev out_of_range : ℕ → Bool
out_of_range d = (d == 0) || leb (2 ^ 63) d || ltb recreate_backoff_max d

cap_backoff : ℕ → ℕ
cap_backoff n = if out_of_range (shift_base n) then recreate_backoff_max else shift_base n

-- A shift by a negative count panics.
unfoldable pub backoff_duration : ℤ → Result Duration
unfolding cap_backoff
backoff_duration (pos n) = ok (pos (cap_backoff n))
backoff_duration (negsuc n) = panicked

-- The delay without a word size.
abbrev pub ideal_backoff : ℕ → ℕ
ideal_backoff n =
    let d = recreate_backoff_base * 2 ^ n in
    if ltb recreate_backoff_max d then recreate_backoff_max else d

-- The two agree at every count below the given one.
agrees_below : ℕ → Bool
agrees_below zero = true
agrees_below (suc n) = let rest = agrees_below n in (cap_backoff n == ideal_backoff n) && rest

agrees_last :
    (bound : ℕ)
    → agrees_below (suc bound) ≡ true
    → (cap_backoff bound ≡ ideal_backoff bound) × (agrees_below bound ≡ true)
unfolding agrees_below
agrees_last bound e = ground arith

agrees_at : (bound n : ℕ) → n < bound → agrees_below bound ≡ true → cap_backoff n ≡ ideal_backoff n
agrees_at zero n h e = absurd (omega arith)
agrees_at (suc bound) n h e = elim (Bool-cases (n == bound)) [
  | inl last ↦ let same : n ≡ bound = (==_iff n bound).0 last in rw same (agrees_last bound e).0
  | inr earlier ↦ agrees_at bound n (ground arith) (agrees_last bound e).1
]

small_counts : agrees_below 64 ≡ true
unfolding agrees_below cap_backoff
small_counts = refl

-- The bits of 2 ^ n above the word.
pow_high : (k n : ℕ) → n ≡ k + 64 → 2 ^ n ≡ 2 ^ 64 * 2 ^ k
pow_high zero n e = let e' : n ≡ 64 = omega arith in rw e' refl
pow_high (suc k) zero e = absurd (omega arith)
pow_high (suc k) (suc n) e = omega (arith, pow-suc 2 n, pow-suc 2 k, pow_high k n (omega arith))

-- From 64 on the shift leaves no bit.
shift_base_high : (n : ℕ) → 64 ≤ n → shift_base n ≡ 0
shift_base_high n h = omega (arith, pow_high (n - 64) n (omega arith))

ideal_backoff_high : (n : ℕ) → 64 ≤ n → ideal_backoff n ≡ recreate_backoff_max
ideal_backoff_high n h =
    ground (arith, pow_high (n - 64) n (omega arith), one-le-pow (n - 64) 2 (omega arith))

cap_backoff-eq_ideal : (n : ℕ) → cap_backoff n ≡ ideal_backoff n
cap_backoff-eq_ideal n = elim (Bool-cases (ltb n 64)) [
  | inl low ↦ agrees_at 64 n (ground arith) small_counts
  | inr high ↦
      unfold cap_backoff in
      rw (shift_base_high n (ground arith), ideal_backoff_high n (ground arith)) refl
]

-- For a count that is not negative, the delay is 10 s doubled that often, and 5 min at most: no
-- overflow of the 64-bit shift gets past the cap.
pub backoff_duration-eq_ideal : (n : ℕ) → backoff_duration (pos n) ≡ ok (pos (ideal_backoff n))
unfolding backoff_duration
backoff_duration-eq_ideal n = ap (λ (d : ℕ). ok (pos d)) (cap_backoff-eq_ideal n)

double_pow : (n : ℕ) → 2 ^ suc n ≡ 2 ^ n * 2
double_pow n = pow-suc 2 n

-- The ideal delay grows with the count, and lies between 10 s and 5 min.
pub ideal_backoff_bounds :
    (n : ℕ)
    → (recreate_backoff_base ≤ ideal_backoff n)
      × (ideal_backoff n ≤ recreate_backoff_max)
      × (ideal_backoff n ≤ ideal_backoff (suc n))
ideal_backoff_bounds n = ground (arith, double_pow n, one-le-pow n 2 (omega arith))

-- For counts that are not negative, the delay is there, lies between 10 s and 5 min, and does not
-- shrink when the count grows by one.
pub backoff_duration-bounds :
    (n : ℕ)
    → (d : ℕ) × (later : ℕ) × (backoff_duration (pos n) ≡ ok (pos d))
      × (backoff_duration (pos (suc n)) ≡ ok (pos later))
      × (recreate_backoff_base ≤ d)
      × (d ≤ later)
      × (later ≤ recreate_backoff_max)
backoff_duration-bounds n =
    let (low, high, grows) = ideal_backoff_bounds n in
    let (low', high', grows') = ideal_backoff_bounds (suc n) in
    (
      ideal_backoff n,
      ideal_backoff (suc n),
      backoff_duration-eq_ideal n,
      backoff_duration-eq_ideal (suc n),
      low,
      grows,
      high',
    )
