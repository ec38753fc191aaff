-- ===== src/DeviceController/Annotations.antt =====
-- The annotations in which device_controller.go keeps a device's recovery state.
pub mod Laws
use android_device_farm.Common.{
  suc, ◌-◌, ◌^◌, ◌==◌, String, Bool, false, Option, none, some, not, ◌||◌, str_eq, is_none,
  if◌then◌else◌,
}
use android_device_farm.Common.Int.{ℤ, pos, negsuc}
use android_device_farm.Go.Time.{Time, Duration, zero_time, add_time}
use android_device_farm.Go.Strconv.{itoa, atoi}
use android_device_farm.Api.Meta.{Labels, lookup, insert, delete}
use android_device_farm.Kube.Client.{Machinery}

abbrev pub ann_booted : String
ann_booted = "farm.example.com/booted"

abbrev pub ann_failures : String
ann_failures = "farm.example.com/recreate-attempts"

abbrev pub ann_next_retry : String
ann_next_retry = "farm.example.com/next-retry"

abbrev number_or_zero : Option ℤ → ℤ
number_or_zero none = pos 0
number_or_zero (some n) = n

abbrev read_number : Option String → ℤ
read_number none = pos 0
read_number (some v) = number_or_zero (atoi v)

-- `annInt`, on the device's annotations
unfoldable pub ann_int : Labels → String → ℤ
ann_int annotations key = read_number (lookup key annotations)

-- A missing key reads as the empty string.
abbrev says_true : Option String → Bool
says_true none = false
says_true (some v) = str_eq v "true"

-- `device.Annotations[annBooted] == "true"`
abbrev pub is_booted : Labels → Bool
is_booted annotations = says_true (lookup ann_booted annotations)

-- `failures + 1` on an `int`
abbrev pub next_int : ℤ → ℤ
next_int (pos n) = if n == 2 ^ 63 - 1 then negsuc (2 ^ 63 - 1) else pos (suc n)
next_int (negsuc n) = if n == 0 then pos 0 else negsuc (n - 1)

abbrev time_or_zero : Option Time → Time
time_or_zero none = zero_time
time_or_zero (some t) = t

module _ (m : Machinery) where
  abbrev read_time : Option String → Time
  read_time none = zero_time
  read_time (some v) = time_or_zero (m.parse_rfc3339 v)

  -- `annTime`, on the device's annotations
  unfoldable pub ann_time : Labels → String → Time
  ann_time annotations key = read_time (lookup key annotations)

  -- The annotations that `recoverFailed` writes.
  unfoldable pub record_failure : Labels → ℤ → Time → Duration → Labels
  record_failure annotations failures now backoff = delete ann_booted (
      insert ann_next_retry (m.format_rfc3339 (add_time now backoff))
        (insert ann_failures (itoa (next_int failures)) annotations))

-- The annotations that `markHealthy` writes.
unfoldable pub healthy_annotations : Labels → Labels
healthy_annotations annotations =
    delete ann_next_retry (delete ann_failures (insert ann_booted "true" annotations))

-- `changed` at the end of `markHealthy`
unfoldable pub healthy_changes : Labels → Bool
healthy_changes annotations =
    not (is_booted annotations)
    || not (is_none (lookup ann_failures annotations))
    || not (is_none (lookup ann_next_retry annotations))
