-- ===== src/Tests/Recovery.antt =====
-- A device that was healthy, is tried once and then left alone until the next attempt is due.
use android_device_farm.Common.{◌≡◌, ◌≤◌, ◌+◌, ◌*◌, ◌/◌, refl, true, false, none, [], ◌∷◌, arith}
use android_device_farm.Common.Int.{pos}
use android_device_farm.Go.Time.{sub_time, second}
use android_device_farm.Go.Strconv.{atoi, itoa}
use android_device_farm.Api.Meta.{key_of, insert, delete}
use android_device_farm.Api.Device.{Device}
use android_device_farm.Api.DeviceLease.{LeasePhase}
use android_device_farm.Kube.Objects.{Pod}
use android_device_farm.Kube.Effect.{ok, pure, after_duration}
use android_device_farm.Kube.Client.{Env}
use android_device_farm.DeviceController.Annotations.{
  ann_int, ann_time, ann_failures, ann_next_retry, record_failure, healthy_annotations,
  healthy_changes, is_booted,
}
use android_device_farm.DeviceController.Annotations.Laws.{healthy_annotations-settled}
use android_device_farm.DeviceController.Backoff.{ideal_backoff}
use android_device_farm.DeviceController.Objects.{build_pod}
use android_device_farm.DeviceController.Recovery.{
  is_waiting, is_deletable, with_annotations, mark_healthy, recover_failed,
}
use android_device_farm.DeviceController.Recovery.Waiting.{
  recover_failed-waits, recover_failed-attempt, not_waiting,
}
use android_device_farm.DeviceController.Recovery.Attempts.{
  Attempts, settled, waited, tried, Attempts-Spaced, recover_failed-counts, Spaced, due, retry_of,
}
use android_device_farm.Tests.Library.{machinery, keeps_seconds, parse_seconds}
use android_device_farm.Tests.Farm.{farm, phone, dc, lease_in, clock, stores_annotations}

abbrev server : Env Unit
server = farm (lease_in LeasePhase.pending none) [] phone

abbrev healthy : Device
healthy = with_annotations phone (healthy_annotations phone.metadata.annotations)

abbrev pod : Pod
pod = build_pod phone dc

abbrev broken : Device
broken =
    with_annotations healthy
      (record_failure machinery healthy.metadata.annotations (pos 0) clock (pos (ideal_backoff 0)))

marked : mark_healthy server phone tt ≡ (ok healthy, tt)
unfolding mark_healthy healthy_changes pure
marked = refl

clock_read : server.now tt ≡ (ok clock, tt)
unfolding pure
clock_read = refl

never_tried :
    is_waiting clock (ann_time machinery healthy.metadata.annotations ann_next_retry) ≡ false
never_tried =
    let (_, _, retry, _) = healthy_annotations-settled machinery phone.metadata.annotations in
    rw retry refl

no_failures : ann_int healthy.metadata.annotations ann_failures ≡ pos 0
no_failures =
    let (_, count, _, _) = healthy_annotations-settled machinery phone.metadata.annotations in count

pod_there : is_deletable pod ≡ true
unfolding build_pod
pod_there = refl

pod_deleted : server.delete_pod (key_of pod.metadata) tt ≡ (ok tt, tt)
unfolding pure
pod_deleted = refl

device_updated : server.update_device broken tt ≡ (ok broken, tt)
unfolding pure
device_updated = refl

first_attempt :
    recover_failed server healthy pod tt ≡ (ok (after_duration (pos (ideal_backoff 0)), broken), tt)
first_attempt =
    recover_failed-attempt server healthy pod tt tt tt tt clock 0 broken clock_read never_tried
      pod_there pod_deleted no_failures device_updated

too_early : is_waiting clock (retry_of server broken) ≡ true
unfolding ann_time record_failure insert delete healthy_annotations parse_seconds atoi itoa
too_early = refl

left_alone :
    recover_failed server broken pod tt
    ≡ (ok (after_duration (sub_time (retry_of server broken) clock), broken), tt)
left_alone = recover_failed-waits server broken pod tt tt clock clock_read too_early

attempts : Attempts server broken (clock ∷ [])
attempts =
    waited broken broken pod tt tt tt clock _
      (tried healthy broken pod tt tt tt clock _ (settled phone healthy tt tt marked) clock_read
        never_tried first_attempt)
      clock_read too_early left_alone

Attempts-Spaced_example :
    (ann_int broken.metadata.annotations ann_failures ≡ pos 1)
    × (retry_of server broken ≡ due (clock ∷ []))
    × Spaced (clock ∷ [])
Attempts-Spaced_example =
    Attempts-Spaced server (stores_annotations (lease_in LeasePhase.pending none) [] phone)
      keeps_seconds (omega arith, tt) (omega arith) attempts

not_late : is_waiting clock (retry_of server healthy) ≡ false → retry_of server healthy ≤ clock
not_late h = not_waiting clock (retry_of server healthy) h

recover_failed-counts_example :
    (ann_int broken.metadata.annotations ann_failures ≡ pos 1)
    × (retry_of server broken ≡ (clock + 10 * second) / second * second)
    × (is_booted broken.metadata.annotations ≡ false)
    × (after_duration (pos (ideal_backoff 0)) ≡ after_duration (pos (10 * second)))
recover_failed-counts_example =
    recover_failed-counts server (stores_annotations (lease_in LeasePhase.pending none) [] phone)
      healthy broken pod tt tt tt clock (after_duration (pos (ideal_backoff 0))) 0 keeps_seconds
      (omega arith) (omega arith) no_failures clock_read (not_late never_tried) first_attempt
