-- ===== src/DeviceController/Recovery/Binding.antt =====
-- `recoverFailed` and `markHealthy` hand back a device with the binding of theirs.
use android_device_farm.Common.{refl, ◌∷◌}
use android_device_farm.Go.Time.{Time}
use android_device_farm.Api.Meta.{key_of}
use android_device_farm.Api.Device.{Device}
use android_device_farm.Kube.Objects.{Pod}
use android_device_farm.Kube.Client.{Env}
use android_device_farm.Kube.Hoare.{
  Keeps, Keeps-bind, Keeps-pure, Keeps-lift, Keeps-optional, Keeps-if, Triple, Triple-bind,
  Triple-pure, Triple-pre, Triple-frame, Triple-if,
}
use android_device_farm.Kube.Trace.{
  sent_device, deleted_pod, OnLog, traced, Keeps-silent, Keeps-sending, Triple-sending_seeing,
}
use android_device_farm.DeviceController.Recovery.{
  recover_failed, recreate, delete_if_there, mark_healthy,
}
use android_device_farm.DeviceController.Bindings.{From, From-saw, From-quiet, Fine, From-Fine}

module _ {W : Type 0} (env : Env W) where
  delete-From : (d : Device) (pod : Pod) → Keeps (OnLog (From d)) (delete_if_there (traced env) pod)
  unfolding delete_if_there
  delete-From d pod =
      Keeps-if _
        (Keeps-bind
          (Keeps-optional
            (Keeps-sending _ _ λ log. From-quiet d (deleted_pod (key_of pod.metadata)) log refl))
          λ _. Keeps-pure tt)
        (Keeps-pure tt)

  -- What `Update` hands back was read.
  update-From :
      (d d' : Device)
      → Triple (OnLog (From d)) ((traced env).update_device d') (λ u. OnLog (From u)) (Fine W)
  update-From d d' =
      Triple-sending_seeing {J = From} _ _ _ (λ u log h. From-saw u (sent_device d' ∷ log) h.0)
        (λ log h. h.0)

  recreate-From :
      (d : Device) (pod : Pod) (now : Time)
      → Triple (OnLog (From d)) (recreate (traced env) d pod now) (λ r. OnLog (From r.1)) (Fine W)
  unfolding recreate
  recreate-From d pod now = Triple-bind (Triple-frame (From-Fine W d) (delete-From d pod)) λ _.
      Triple-bind (Triple-frame (From-Fine W d) (Keeps-lift _))
        λ backoff. Triple-bind (update-From d _) λ u. Triple-pure _

  pub recover_failed-From :
      (d : Device) (pod : Pod)
      → Triple (OnLog (From d)) (recover_failed (traced env) d pod) (λ r. OnLog (From r.1)) (Fine W)
  unfolding recover_failed
  recover_failed-From d pod =
      Triple-bind (Triple-frame (From-Fine W d) (Keeps-silent _))
        λ now. Triple-if _ (Triple-pure _) (recreate-From d pod now)

  pub mark_healthy-From :
      (d : Device)
      → Triple (OnLog (From d)) (mark_healthy (traced env) d) (λ u. OnLog (From u)) (Fine W)
  unfolding mark_healthy
  mark_healthy-From d =
      Triple-if _ (update-From d _)
        (Triple-pre (λ s h. record { logged = h.logged }) (Triple-pure _))
