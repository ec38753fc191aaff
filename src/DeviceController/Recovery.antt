-- ===== src/DeviceController/Recovery.antt =====
-- `recoverFailed` and `markHealthy` of device_controller.go.
pub mod Waiting
pub mod Binding
pub mod Owned
pub mod Attempts
use android_device_farm.Common.{Bool, ◌&&◌, not, str_eq, is_none, if◌then◌else◌}
use android_device_farm.Go.Time.{Time, is_zero, before, sub_time}
use android_device_farm.Api.Meta.{Labels, key_of}
use android_device_farm.Api.Device.{Device}
use android_device_farm.Kube.Objects.{Pod}
use android_device_farm.Kube.Effect.{
  Exec, pure, lift, optional, ◌>>=◌, ◌>>◌, ReconcileResult, after_duration,
}
use android_device_farm.Kube.Client.{Env}
use android_device_farm.DeviceController.Backoff.{backoff_duration}
use android_device_farm.DeviceController.Annotations.{
  ann_int, ann_time, ann_failures, ann_next_retry, record_failure, healthy_annotations,
  healthy_changes,
}

abbrev pub with_annotations : Device → Labels → Device
with_annotations device annotations = record device {
  metadata = record (device.metadata) { annotations = annotations };
}

-- `!t.IsZero() && now.Before(t)`
abbrev pub is_waiting : Time → Time → Bool
is_waiting now t = not (is_zero t) && before now t

-- `pod.Name != "" && pod.DeletionTimestamp == nil`
abbrev pub is_deletable : Pod → Bool
is_deletable pod = not (str_eq pod.metadata.name "") && is_none pod.metadata.deletion_timestamp

module _ {W : Type 0} (env : Env W) where
  -- `r.Delete(ctx, pod)` with a missing pod ignored
  delete_if_there : Pod → Exec W Unit
  delete_if_there pod =
      if is_deletable pod
      then (do optional (env.delete_pod (key_of pod.metadata)); pure tt)
      else pure tt

  -- The rest of `recoverFailed` behind its early return.
  pub recreate : Device → Pod → Time → Exec W (ReconcileResult × Device)
  unfolding delete_if_there
  recreate device pod now = do
    let failures = ann_int device.metadata.annotations ann_failures
    delete_if_there pod
    backoff ← lift (backoff_duration failures)
    updated ← env.update_device (
        with_annotations device
          (record_failure env.machinery device.metadata.annotations failures now backoff))
    pure (after_duration backoff, updated)

  unfoldable pub recover_failed : Device → Pod → Exec W (ReconcileResult × Device)
  unfolding recreate
  recover_failed device pod = do
    now ← env.now
    let t = ann_time env.machinery device.metadata.annotations ann_next_retry
    if is_waiting now t
        then pure (after_duration (sub_time t now), device)
        else recreate device pod now

  unfoldable pub mark_healthy : Device → Exec W Device
  mark_healthy device =
      let healthy = with_annotations device (healthy_annotations device.metadata.annotations) in
      if healthy_changes device.metadata.annotations
      then env.update_device healthy
      else pure healthy
