-- ===== src/DeviceController/Recovery/Waiting.antt =====
-- When `recoverFailed` makes an attempt.
use android_device_farm.Common.{
  ℕ, ◌≡◌, ◌≢◌, ◌↔◌, ◌≤◌, ◌<◌, refl, true, false, none, List, [], In, inl, inr, arith, str_eq,
  eq_iff, Bool-cases,
}
use android_device_farm.Common.Int.{pos}
use android_device_farm.Go.Time.{Time, sub_time}
use android_device_farm.Api.Meta.{key_of}
use android_device_farm.Api.Device.{Device}
use android_device_farm.Kube.Objects.{Pod}
use android_device_farm.Kube.Effect.{ok, after_duration, ◌>>=◌}
use android_device_farm.Kube.Client.{Env}
use android_device_farm.Kube.Hoare.{
  Keeps-bind, Keeps-lift, Keeps-pure, Triple, Triple-bind, Triple-Keeps, Triple-optional_same,
  Triple-end, Keeps-Triple,
}
use android_device_farm.Kube.Trace.{
  Event, deleted_pod, traced, silent, OnLog, Triple-sending, Triple-sending_seeing,
}
use android_device_farm.DeviceController.Annotations.{
  ann_int, ann_time, ann_next_retry, ann_failures, record_failure,
}
use android_device_farm.DeviceController.Backoff.{ideal_backoff, backoff_duration-eq_ideal}
use android_device_farm.DeviceController.Recovery.{
  recover_failed, recreate, is_waiting, is_deletable, with_annotations, delete_if_there,
}

pub not_waiting : (now t : Time) → is_waiting now t ≡ false → t ≤ now
not_waiting now t h = ground arith

waiting : (now t : Time) → is_waiting now t ≡ true → now < t
waiting now t h = ground arith

pub not_waiting-late : (now t : Time) → t ≤ now → is_waiting now t ≡ false
not_waiting-late now t h = ground arith

module _ {W : Type 0} (env : Env W) (device : Device) (pod : Pod) where
  -- The time at which the device may be recreated again.
  abbrev pub retry : Time
  retry = ann_time env.machinery device.metadata.annotations ann_next_retry

  -- The run before the retry time.
  pub recover_failed-waits :
      (w w' : W) (now : Time)
      → env.now w ≡ (ok now, w')
      → is_waiting now retry ≡ true
      → recover_failed env device pod w ≡ (ok (after_duration (sub_time retry now), device), w')
  unfolding recover_failed
  recover_failed-waits w w' now clock waits = unfold ◌>>=◌ in rw (clock, waits) refl

  -- The run behind the early return.
  pub recover_failed-late :
      (w w1 : W) (now : Time)
      → env.now w ≡ (ok now, w1)
      → is_waiting now retry ≡ false
      → recover_failed env device pod w ≡ recreate env device pod now w1
  unfolding recover_failed
  recover_failed-late w w1 now clock late = unfold ◌>>=◌ in rw (clock, late) refl

  -- The run of an attempt at which every call succeeds.
  pub recover_failed-attempt :
      (w w1 w2 w3 : W) (now : Time) (n : ℕ) (updated : Device)
      → env.now w ≡ (ok now, w1)
      → is_waiting now retry ≡ false
      → is_deletable pod ≡ true
      → env.delete_pod (key_of pod.metadata) w1 ≡ (ok tt, w2)
      → ann_int device.metadata.annotations ann_failures ≡ pos n
      → env.update_device
          (with_annotations device (
            record_failure env.machinery device.metadata.annotations
              (pos n)
              now
              (pos (ideal_backoff n))))
          w2
        ≡ (ok updated, w3)
      → recover_failed env device pod w ≡ (ok (after_duration (pos (ideal_backoff n)), updated), w3)
  unfolding recover_failed recreate delete_if_there
  recover_failed-attempt w w1 w2 w3 now n updated clock late there deletion count update =
      unfold ◌>>=◌ in
      rw (clock, late, there, deletion, count, backoff_duration-eq_ideal n, update) refl

is_deletable-there :
    (pod : Pod)
    → pod.metadata.name ≢ ""
    → pod.metadata.deletion_timestamp ≡ none
    → is_deletable pod ≡ true
is_deletable-there pod named live = elim (Bool-cases (str_eq pod.metadata.name "")) [
  | inl nameless ↦ absurd (named ((eq_iff pod.metadata.name "").0 nameless))
  | inr has_name ↦ rw (has_name, live) refl
]

module _ {W : Type 0} (env : Env W) (device : Device) (pod : Pod) where
  abbrev Deleted : List Event → Type 0
  Deleted = In (deleted_pod (key_of pod.metadata))

  delete_if_there-Deleted :
      is_deletable pod ≡ true
      → Triple
          (OnLog (λ _. Unit))
          (delete_if_there (traced env) pod)
          (λ _. OnLog Deleted)
          (OnLog Deleted)
  unfolding delete_if_there
  delete_if_there-Deleted there = rw there (
      Triple-bind (Triple-optional_same (Triple-sending _ _ λ log h. inl refl))
        λ _. Triple-Keeps (Keeps-pure tt))

  recreate-Deleted :
      (now : Time)
      → is_deletable pod ≡ true
      → Triple
          (OnLog (λ _. Unit))
          (recreate (traced env) device pod now)
          (λ _. OnLog Deleted)
          (OnLog Deleted)
  unfolding recreate
  recreate-Deleted now there = Triple-bind (delete_if_there-Deleted there) λ _. Triple-Keeps (
      Keeps-bind (Keeps-lift _) λ backoff.
        Keeps-bind
          (Keeps-Triple (
            Triple-sending_seeing {J = λ _. Deleted} _ _ _ (λ a log h. inr (inr h))
              (λ log h. inr h)))
          λ u. Keeps-pure _)

  clock_traced :
      (w w1 : W) (now : Time)
      → env.now w ≡ (ok now, w1)
      → (traced env).now (record { world = w; log = [] })
        ≡ (ok now, record { world = w1; log = [] })
  clock_traced w w1 now clock = unfold silent in rw clock refl

  -- For a pod that has a name and is not being deleted, and whatever the API server answers:
  -- `recoverFailed` asks for the deletion of the pod exactly if the retry time that the annotations
  -- hold is not after what the clock says.
  pub recover_failed-deletes :
      (w w1 : W) (now : Time)
      → pod.metadata.name ≢ ""
      → pod.metadata.deletion_timestamp ≡ none
      → env.now w ≡ (ok now, w1)
      → In
          (deleted_pod (key_of pod.metadata))
          (recover_failed (traced env) device pod (record { world = w; log = [] })).1.log
        ↔ (retry env device pod ≤ now)
  recover_failed-deletes w w1 now named live clock =
      let clock' = clock_traced w w1 now clock in
      elim (Bool-cases (is_waiting now (retry env device pod))) [
        | inl waits ↦
            rw
              (recover_failed-waits (traced env) device pod (record { world = w; log = [] })
                (record { world = w1; log = [] }) now clock' waits)
              (λ i. absurd i, λ h. absurd (omega (arith, waiting now (retry env device pod) waits)))
        | inr late ↦
            rw
              (recover_failed-late (traced env) device pod (record { world = w; log = [] })
                (record { world = w1; log = [] }) now clock' late)
              (
                λ i. not_waiting now (retry env device pod) late,
                λ h.
                    (Triple-end (recreate-Deleted now (is_deletable-there pod named live))
                      (record { world = w1; log = [] }) (record { logged = tt })).logged,
              )
      ]
