-- ===== src/DeviceController/Recovery/Attempts.antt =====
-- The attempts at a failed device, one reconcile after the other.
use android_device_farm.Common.{
  ◌≡◌, refl, sym, ◌∙◌, ℕ, suc, ◌+◌, ◌-◌, ◌*◌, ◌/◌, ◌^◌, ◌<◌, ◌≤◌, true, false, List, [], ◌∷◌,
  length, All, arith, ltb, if◌then◌else◌,
}
use android_device_farm.Common.Int.{pos}
use android_device_farm.Go.Time.{Time, second, minute, zero_time}
use android_device_farm.Api.Meta.{Labels}
use android_device_farm.Api.Device.{Device}
use android_device_farm.Kube.Objects.{Pod}
use android_device_farm.Kube.Effect.{ApiError, ok, err, lift, ReconcileResult, after_duration}
use android_device_farm.Kube.Client.{Env}
use android_device_farm.Kube.Laws.{KeepsSeconds, StoresAnnotations, rfc3339_end}
use android_device_farm.Kube.Hoare.{
  Triple-bind, Triple-pure, Returns, Returns-known, Returns-value, Returns-given, Triple-if,
  Triple-pre,
}
use android_device_farm.DeviceController.Annotations.{
  ann_int, ann_time, ann_failures, ann_next_retry, record_failure, healthy_annotations, is_booted,
}
use android_device_farm.DeviceController.Annotations.Laws.{
  record_failure-read, healthy_annotations-settled,
}
use android_device_farm.DeviceController.Backoff.{
  backoff_duration, ideal_backoff, backoff_duration-eq_ideal, ideal_backoff_bounds,
  recreate_backoff_max,
}
use android_device_farm.DeviceController.Recovery.Waiting.{
  recover_failed-waits, recover_failed-late, not_waiting, not_waiting-late,
}
use android_device_farm.DeviceController.Recovery.{
  is_waiting, recover_failed, recreate, mark_healthy,
}

abbrev annotations : Device → Labels
annotations d = d.metadata.annotations

-- The time before which the device is not tried again, after attempts at these times, the latest
-- first: the backoff of the attempts before the last one, from that one on, to the second.
abbrev pub due : List Time → Time
due [] = zero_time
due (t ∷ ts) = (t + ideal_backoff (length ts)) / second * second

-- Each attempt comes when it is due.
abbrev pub Spaced : List Time → Type 0
Spaced [] = Unit
Spaced (t ∷ ts) = (due ts ≤ t) × Spaced ts

module _ {W : Type 0} (env : Env W) where
  abbrev pub retry_of : Device → Time
  retry_of d = ann_time env.machinery (annotations d) ann_next_retry

  -- What happens to a device that is Failed time and again, with the times of the attempts at it that
  -- the server recorded, the latest first. It starts at a device without attempts and retry time, new
  -- or settled by `markHealthy`. A reconcile that ends in an error has left the device as it was.
  -- Others may write the device, but not its annotations.
  pub data Attempts : Device → List Time → Type 0 where
    untried :
        (d : Device)
        → ann_int (annotations d) ann_failures ≡ pos 0
        → retry_of d ≡ zero_time
        → Attempts d []
    settled : (d0 d : Device) (w w' : W) → mark_healthy env d0 w ≡ (ok d, w') → Attempts d []
    written :
        {ts : List Time} (d d' : Device)
        → Attempts d ts
        → annotations d' ≡ annotations d
        → Attempts d' ts
    broken_off :
        {ts : List Time} (d : Device) (pod : Pod) (w w' : W) (e : ApiError)
        → Attempts d ts
        → recover_failed env d pod w ≡ (err e, w')
        → Attempts d ts
    waited :
        {ts : List Time} (d d' : Device) (pod : Pod) (w w1 w' : W) (now : Time)
        (r : ReconcileResult)
        → Attempts d ts
        → env.now w ≡ (ok now, w1)
        → is_waiting now (retry_of d) ≡ true
        → recover_failed env d pod w ≡ (ok (r, d'), w')
        → Attempts d' ts
    tried :
        {ts : List Time} (d d' : Device) (pod : Pod) (w w1 w' : W) (now : Time)
        (r : ReconcileResult)
        → Attempts d ts
        → env.now w ≡ (ok now, w1)
        → is_waiting now (retry_of d) ≡ false
        → recover_failed env d pod w ≡ (ok (r, d'), w')
        → Attempts d' (now ∷ ts)

  recover_failed-same :
      (d d' : Device) (pod : Pod) (w w1 w' : W) (now : Time) (r : ReconcileResult)
      → env.now w ≡ (ok now, w1)
      → is_waiting now (retry_of d) ≡ true
      → recover_failed env d pod w ≡ (ok (r, d'), w')
      → d ≡ d'
  recover_failed-same d d' pod w w1 w' now r clock waits e =
      let e' = sym (recover_failed-waits env d pod w w1 now clock waits) ∙ e in cc

  module _ (stores : StoresAnnotations env) where
    -- The annotations behind an attempt at `now` with a count of `n`.
    abbrev Tried : Device → ℕ → Time → Device → Type 0
    Tried d n now d' =
        annotations d'
        ≡ record_failure env.machinery (annotations d) (pos n) now (pos (ideal_backoff n))

    lift_backoff :
        (n : ℕ) → Returns {W = W} (lift (backoff_duration (pos n))) (λ b. b ≡ pos (ideal_backoff n))
    unfolding lift
    lift_backoff n = Returns-known λ w b e. cc (backoff_duration-eq_ideal n)

    update-Returns :
        (d : Device) → Returns (env.update_device d) (λ u. annotations u ≡ annotations d)
    update-Returns d = Returns-known (stores d)

    -- What an attempt returns, with the device as the server handed it back.
    abbrev Attempted : Device → ℕ → Time → ReconcileResult × Device → Type 0
    Attempted d n now p = (p.0 ≡ after_duration (pos (ideal_backoff n))) × Tried d n now p.1

    recreate-Attempted :
        (d : Device) (pod : Pod) (now : Time) (n : ℕ)
        → ann_int (annotations d) ann_failures ≡ pos n
        → Returns (recreate env d pod now) (Attempted d n now)
    unfolding recreate
    recreate-Attempted d pod now n count = rw count (
        Triple-bind (Returns-known λ w a e. tt) λ _. Triple-bind (lift_backoff n) λ b.
          Returns-given λ e.
            rw e
              (Triple-bind (update-Returns _) λ u. Triple-pre (λ s h. (refl, h)) (Triple-pure _)))

    recover_failed-Attempted :
        (d d' : Device) (pod : Pod) (w w1 w' : W) (now : Time) (r : ReconcileResult) (n : ℕ)
        → ann_int (annotations d) ann_failures ≡ pos n
        → env.now w ≡ (ok now, w1)
        → is_waiting now (retry_of d) ≡ false
        → recover_failed env d pod w ≡ (ok (r, d'), w')
        → Attempted d n now (r, d')
    recover_failed-Attempted d d' pod w w1 w' now r n count clock late e =
        Returns-value (recreate-Attempted d pod now n count) (r, d') w1 w'
          (sym (recover_failed-late env d pod w w1 now clock late) ∙ e)

    mark_healthy-Returns :
        (d : Device)
        → Returns (mark_healthy env d) (λ u. annotations u ≡ healthy_annotations (annotations d))
    unfolding mark_healthy
    mark_healthy-Returns d =
        Triple-if _ (update-Returns _) (Triple-pre (λ s h. refl) (Triple-pure _))

    -- Where the API server hands a device back with the annotations that it was sent, and a time is
    -- read back to the second; with a count `n` below the largest `int`, at a time that is not before
    -- the retry time and at least 5 min before the year 10000: an attempt that succeeds has the device
    -- with `n + 1` failures, a retry time 10 s doubled `n` times from now, 5 min at most, to the
    -- second, and without the mark that it booted, and asks for a requeue after that delay.
    pub recover_failed-counts :
        (d d' : Device) (pod : Pod) (w w1 w' : W) (now : Time) (r : ReconcileResult) (n : ℕ)
        → KeepsSeconds env.machinery
        → n < 2 ^ 63 - 1
        → now + recreate_backoff_max < rfc3339_end
        → ann_int (annotations d) ann_failures ≡ pos n
        → env.now w ≡ (ok now, w1)
        → retry_of d ≤ now
        → recover_failed env d pod w ≡ (ok (r, d'), w')
        → let delay =
            if ltb (5 * minute) (10 * second * 2 ^ n) then 5 * minute else 10 * second * 2 ^ n in
          (ann_int (annotations d') ann_failures ≡ pos (suc n))
          × (retry_of d' ≡ (now + delay) / second * second)
          × (is_booted (annotations d') ≡ false)
          × (r ≡ after_duration (pos delay))
    recover_failed-counts d d' pod w w1 w' now r n keeps few early count clock late e =
        let (result, tried_now) =
          recover_failed-Attempted d d' pod w w1 w' now r n count clock
            (not_waiting-late now (retry_of d) late) e in
        let (_, cap, _) = ideal_backoff_bounds n in
        let (count', retry', fresh) =
          record_failure-read env.machinery keeps (annotations d) n (ideal_backoff n) now few
            (omega (arith, early, cap)) in
        rw tried_now (count', retry', fresh, result)

    -- Where the API server hands a device back with the annotations that it was sent, and a time is
    -- read back to the second; for fewer than 2 ^ 63 - 1 attempts, at least 5 min before the year
    -- 10000: from a device without attempts and retry time, new or settled by `markHealthy`, through
    -- any sequence of its reconciles as Failed, of writes by others that leave its annotations alone,
    -- and of reconciles that ended in an error and left it as it was, the annotations have the number
    -- of the attempts that the server recorded and the time when the next one is due, and none of these
    -- came before it was due: 10 s after the one before it, twice as long each time, 5 min at most. An
    -- attempt that could not be recorded is not among them.
    pub Attempts-Spaced :
        {d : Device} {ts : List Time}
        → KeepsSeconds env.machinery
        → All (λ t. t + recreate_backoff_max < rfc3339_end) ts
        → length ts < 2 ^ 63 - 1
        → Attempts d ts
        → (ann_int (annotations d) ann_failures ≡ pos (length ts))
          × (retry_of d ≡ due ts)
          × Spaced ts
    Attempts-Spaced keeps early few (settled d0 d w w' e) =
        let (_, count, retry, _) = healthy_annotations-settled env.machinery (annotations d0) in
        rw (Returns-value (mark_healthy-Returns d0) d w w' e) (count, retry, tt)
    Attempts-Spaced keeps early few (untried d count retry) = (count, retry, tt)
    Attempts-Spaced keeps early few (written d d' before same) =
        rw same (Attempts-Spaced keeps early few before)
    Attempts-Spaced keeps early few (broken_off d pod w w' e before h) =
        Attempts-Spaced keeps early few before
    Attempts-Spaced keeps early few (waited d d' pod w w1 w' now r before clock waits e) =
        rw (sym (recover_failed-same d d' pod w w1 w' now r clock waits e))
          (Attempts-Spaced keeps early few before)
    Attempts-Spaced keeps early few (tried {ts} d d' pod w w1 w' now r before clock late e) =
        let (count, retry, spaced) = Attempts-Spaced keeps early.1 (omega arith) before in
        let (_, cap, _) = ideal_backoff_bounds (length ts) in
        let (count', retry', _) =
          record_failure-read env.machinery keeps (annotations d) (length ts)
            (ideal_backoff (length ts)) now (omega arith) (omega (arith, early.0, cap)) in
        rw (recover_failed-Attempted d d' pod w w1 w' now r (length ts) count clock late e).1
          (count', retry', (omega (arith, not_waiting now (retry_of d) late, retry), spaced))
