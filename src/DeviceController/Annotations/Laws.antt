-- ===== src/DeviceController/Annotations/Laws.antt =====
-- The recovery state that the annotations keep is what the next reconcile reads.
use android_device_farm.Common.{
  ◌≡◌, refl, suc, ◌+◌, ◌-◌, ◌*◌, ◌/◌, ◌^◌, ◌<◌, ℕ, true, false, none, some, arith, ◌∙◌,
}
use android_device_farm.Common.Int.{pos}
use android_device_farm.Go.Time.{Time, second, zero_time}
use android_device_farm.Go.Strconv.{itoa, atoi-itoa}
use android_device_farm.Api.Meta.{Labels, lookup, insert, delete, lookup-insert, lookup-delete}
use android_device_farm.Kube.Client.{Machinery}
use android_device_farm.Kube.Laws.{KeepsSeconds, rfc3339_end}
use android_device_farm.DeviceController.Annotations.{
  ann_int, ann_time, is_booted, next_int, ann_booted, ann_failures, ann_next_retry, record_failure,
  healthy_annotations, healthy_changes,
}

next_int-small : (n : ℕ) → n < 2 ^ 63 - 1 → next_int (pos n) ≡ pos (suc n)
next_int-small n h = ground arith

module _ (m : Machinery) (a : Labels) (failures : ℕ) (retry : Time) where
  abbrev recorded : Labels
  recorded = delete ann_booted (
      insert ann_next_retry (m.format_rfc3339 retry)
        (insert ann_failures (itoa (next_int (pos failures))) a))

  record_failure-failures : lookup ann_failures recorded ≡ some (itoa (next_int (pos failures)))
  record_failure-failures =
      lookup-delete ann_booted ann_failures _
      ∙ lookup-insert ann_next_retry ann_failures _ _
      ∙ lookup-insert ann_failures ann_failures _ a

  record_failure-retry : lookup ann_next_retry recorded ≡ some (m.format_rfc3339 retry)
  record_failure-retry =
      lookup-delete ann_booted ann_next_retry _ ∙ lookup-insert ann_next_retry ann_next_retry _ _

  record_failure-booted : lookup ann_booted recorded ≡ none
  record_failure-booted = lookup-delete ann_booted ann_booted _

module _ (a : Labels) where
  healthy_annotations-booted : lookup ann_booted (healthy_annotations a) ≡ some "true"
  unfolding healthy_annotations
  healthy_annotations-booted =
      lookup-delete ann_next_retry ann_booted _
      ∙ lookup-delete ann_failures ann_booted _
      ∙ lookup-insert ann_booted ann_booted "true" a

  healthy_annotations-failures : lookup ann_failures (healthy_annotations a) ≡ none
  unfolding healthy_annotations
  healthy_annotations-failures =
      lookup-delete ann_next_retry ann_failures _ ∙ lookup-delete ann_failures ann_failures _

  healthy_annotations-retry : lookup ann_next_retry (healthy_annotations a) ≡ none
  unfolding healthy_annotations
  healthy_annotations-retry = lookup-delete ann_next_retry ann_next_retry _

-- For a count that is not negative and below the largest `int`, a retry time before the year
-- 10000, and a parser that reads a printed time back to the second: what `recoverFailed` writes
-- is read back as one failure more, the time of the retry to the second, and a device that has
-- not booted.
pub record_failure-read :
    (m : Machinery) (keeps : KeepsSeconds m) (a : Labels) (failures backoff : ℕ) (now : Time)
    → failures < 2 ^ 63 - 1
    → now + backoff < rfc3339_end
    → let b = record_failure m a (pos failures) now (pos backoff) in
      (ann_int b ann_failures ≡ pos (suc failures))
      × (ann_time m b ann_next_retry ≡ (now + backoff) / second * second)
      × (is_booted b ≡ false)
unfolding record_failure ann_int ann_time
record_failure-read m keeps a failures backoff now h k =
    rw
      (
        record_failure-failures m a failures (now + backoff),
        record_failure-retry m a failures (now + backoff),
        record_failure-booted m a failures (now + backoff),
        keeps (now + backoff) k,
        next_int-small failures h,
        atoi-itoa (suc failures) (omega arith),
      )
      (refl, refl, refl)

-- After `markHealthy` the annotations say that the device has booted and has neither failures nor a
-- retry time, and a second `markHealthy` has nothing to change.
pub healthy_annotations-settled :
    (m : Machinery) (a : Labels)
    → let b = healthy_annotations a in
      (is_booted b ≡ true)
      × (ann_int b ann_failures ≡ pos 0)
      × (ann_time m b ann_next_retry ≡ zero_time)
      × (healthy_changes b ≡ false)
unfolding ann_int ann_time healthy_changes
healthy_annotations-settled m a =
    rw (healthy_annotations-booted a, healthy_annotations-failures a, healthy_annotations-retry a)
      (refl, refl, refl, refl)
