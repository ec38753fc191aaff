-- ===== src/Go/Int32.antt =====
-- Go's `int32`, by its bit pattern, a number below 2 ^ 32. Counters wrap, tests are signed.
use android_device_farm.Common.{ℕ, suc, ◌+◌, ◌-◌, ◌%◌, ◌^◌, Bool, ltb}
use android_device_farm.Common.Int.{ℤ, pos, negsuc}
use android_device_farm.Common.{if◌then◌else◌}

abbrev pub int32_mod : ℕ
int32_mod = 2 ^ 32

-- The values from 0 to 2 ^ 31 - 1 stand for themselves.
abbrev pub int32_max : ℕ
int32_max = 2 ^ 31

-- `int32(n)` for an `int` n that is not negative.
abbrev pub to_int32 : ℕ → ℕ
to_int32 n = n % int32_mod

abbrev pub add32 : ℕ → ℕ → ℕ
add32 a b = (a + b) % int32_mod

abbrev pub sub32 : ℕ → ℕ → ℕ
sub32 a b = (a + int32_mod - b) % int32_mod

-- `n++`
abbrev pub inc32 : ℕ → ℕ
inc32 a = suc a % int32_mod

-- `a < b` as signed numbers: the offset turns the signed order into that of ℕ.
abbrev pub lt32 : ℕ → ℕ → Bool
lt32 a b = ltb ((a + int32_max) % int32_mod) ((b + int32_max) % int32_mod)

-- The integer that a pattern stands for.
abbrev pub signed32 : ℕ → ℤ
signed32 w = if ltb w int32_max then pos w else negsuc (int32_mod - w - 1)
