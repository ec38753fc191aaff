-- ===== src/DeviceController/Recovery/Owned.antt =====
-- `recoverFailed` and `markHealthy` delete the pod that they are given, and write their device.
use android_device_farm.Common.{◌≡◌, ◌∙◌}
use android_device_farm.Go.Time.{Time}
use android_device_farm.Api.Meta.{ObjectKey, key_of}
use android_device_farm.Api.Device.{Device}
use android_device_farm.Kube.Objects.{Pod}
use android_device_farm.Kube.Client.{Env}
use android_device_farm.Kube.Laws.{KeepsKeys}
use android_device_farm.Kube.Hoare.{
  Keeps, Keeps-bind, Keeps-pure, Keeps-lift, Keeps-optional, Keeps-if, Triple, Triple-bind,
  Triple-pure, Triple-pre, Triple-Keeps, Triple-if,
}
use android_device_farm.Kube.Trace.{
  Traced, traced, Keeps-silent, Keeps-sending, Triple-sending_seeing_known,
}
use android_device_farm.DeviceController.Recovery.{
  recover_failed, recreate, delete_if_there, mark_healthy,
}
use android_device_farm.DeviceController.Owned.{suffixed, Own}

module _ {W : Type 0} (env : Env W) (laws : KeepsKeys env) (key : ObjectKey) where
  abbrev IsOwn : Traced W → Type 0
  IsOwn = Own env.machinery key

  -- What is known of the device that the reconcile goes on with.
  abbrev pub OwnDevice : Device → Traced W → Type 0
  OwnDevice d s = IsOwn s × (key_of d.metadata ≡ key)

  delete-Own :
      (pod : Pod)
      → key_of pod.metadata ≡ suffixed key "-emulator"
      → Keeps IsOwn (delete_if_there (traced env) pod)
  unfolding delete_if_there
  delete-Own pod k =
      Keeps-if _
        (Keeps-bind (Keeps-optional (Keeps-sending _ _ λ log h. (k, h))) λ _. Keeps-pure tt)
        (Keeps-pure tt)

  update-Own :
      (d : Device)
      → key_of d.metadata ≡ key
      → Triple IsOwn ((traced env).update_device d) OwnDevice IsOwn
  update-Own d named =
      Triple-sending_seeing_known _ _ _ (λ log h. (named, h)) (λ ds log h. (tt, h))
        λ w u e. laws.updates_device d w u e ∙ named

  module _ (d : Device) (named : key_of d.metadata ≡ key) where
    recreate-Own :
        (pod : Pod) (now : Time)
        → key_of pod.metadata ≡ suffixed key "-emulator"
        → Triple IsOwn (recreate (traced env) d pod now) (λ r. OwnDevice r.1) IsOwn
    unfolding recreate
    recreate-Own pod now k = Triple-bind (Triple-Keeps (delete-Own pod k)) λ _.
        Triple-bind (Triple-Keeps (Keeps-lift _))
          λ backoff. Triple-bind (update-Own _ named) λ u. Triple-pure _

    pub recover_failed-Own :
        (pod : Pod)
        → key_of pod.metadata ≡ suffixed key "-emulator"
        → Triple IsOwn (recover_failed (traced env) d pod) (λ r. OwnDevice r.1) IsOwn
    unfolding recover_failed
    recover_failed-Own pod k =
        Triple-bind (Triple-Keeps (Keeps-silent _)) λ now.
          Triple-if _ (Triple-pre (λ s h. (h, named)) (Triple-pure _)) (recreate-Own pod now k)

    pub mark_healthy-Own : Triple IsOwn (mark_healthy (traced env) d) OwnDevice IsOwn
    unfolding mark_healthy
    mark_healthy-Own =
        Triple-if _ (update-Own _ named) (Triple-pre (λ s h. (h, named)) (Triple-pure _))
