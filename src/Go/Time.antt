-- ===== src/Go/Time.antt =====
-- Go's `time.Time` in nanoseconds from the zero time, and `time.Duration`, a count of nanoseconds.
use android_device_farm.Common.{ℕ, suc, ◌+◌, ◌-◌, ◌*◌, ◌^◌, Bool}
use android_device_farm.Common.{ltb, ◌==◌, if◌then◌else◌}
use android_device_farm.Common.Int.{ℤ, pos, negsuc, sub_ℕ}

abbrev pub Time : Type 0
Time = ℕ

abbrev pub Duration : Type 0
Duration = ℤ

abbrev pub second : ℕ
second = 1000000000

abbrev pub minute : ℕ
minute = 60 * second

-- The zero `time.Time`, and `t.IsZero()`.
abbrev pub zero_time : Time
zero_time = 0

abbrev pub is_zero : Time → Bool
is_zero t = t == 0

-- `t.Add(d)`. No time before the zero time is met.
abbrev pub add_time : Time → Duration → Time
add_time t (pos n) = t + n
add_time t (negsuc n) = t - suc n

abbrev pub max_duration : ℕ
max_duration = 2 ^ 63 - 1

-- `t.Sub(u)`, which saturates at the ends of `int64`.
abbrev pub saturate : Duration → Duration
saturate (pos n) = if ltb max_duration n then pos max_duration else pos n
saturate (negsuc n) = if ltb max_duration n then negsuc max_duration else negsuc n

abbrev pub sub_time : Time → Time → Duration
sub_time t u = saturate (sub_ℕ t u)

-- `t.Before(u)` and `t.After(u)`
abbrev pub before : Time → Time → Bool
before t u = ltb t u

abbrev pub after : Time → Time → Bool
after t u = ltb u t
