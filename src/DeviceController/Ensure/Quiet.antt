-- ===== src/DeviceController/Ensure/Quiet.antt =====
-- `ensureService`, `ensurePod` and `ensureRegistration` write no device.
use android_device_farm.Common.{◌≡◌, refl, String, Bool, true, false, Option, none, some, List}
use android_device_farm.Api.Device.{Device}
use android_device_farm.Api.DeviceClass.{DeviceClass}
use android_device_farm.Api.DevicePool.{DevicePool, StfRef}
use android_device_farm.Kube.Objects.{Pod, Service, Job}
use android_device_farm.Kube.Effect.{Exec}
use android_device_farm.Kube.Client.{Env}
use android_device_farm.Kube.Hoare.{
  Keeps, Keeps-bind, Keeps-pure, Keeps-lift, Keeps-optional, Keeps-if,
}
use android_device_farm.Kube.Trace.{
  Event, traced, OnLog, Closed, is_quiet, sending, Keeps-sending, Keeps-silent,
}
use android_device_farm.DeviceController.Ensure.{
  update_if_changed, create_owned_service, repair_or_create, ensure_service, create_owned_pod,
  existing_or_new, ensure_pod, create_owned_job, unless_registered, register_at, register_in_pool,
  ensure_registration,
}

module _ {W : Type 0} (env : Env W) (I : List Event → Type 0) (closed : Closed is_quiet I) where
  quiet-Keeps :
      {A : Type 0} (e : Event) (m : Exec W A) → is_quiet e ≡ true → Keeps (OnLog I) (sending e m)
  quiet-Keeps e m q = Keeps-sending e m λ log. closed e log q

  update_if_changed-Keeps :
      (r : Service × Bool) → Keeps (OnLog I) (update_if_changed (traced env) r)
  unfolding update_if_changed
  update_if_changed-Keeps (s, true) = Keeps-bind (quiet-Keeps _ _ refl) λ _. Keeps-pure tt
  update_if_changed-Keeps (s, false) = Keeps-pure tt

  repair_or_create-Keeps :
      (device : Device) (s : Option Service)
      → Keeps (OnLog I) (repair_or_create (traced env) device s)
  unfolding repair_or_create create_owned_service
  repair_or_create-Keeps device (some s) = update_if_changed-Keeps _
  repair_or_create-Keeps device none =
      Keeps-bind (Keeps-lift _) λ owned. Keeps-bind (quiet-Keeps _ _ refl) λ _. Keeps-pure tt

  pub ensure_service-Keeps :
      (device : Device) → Keeps (OnLog I) (ensure_service (traced env) device)
  unfolding ensure_service
  ensure_service-Keeps device =
      Keeps-bind (Keeps-optional (Keeps-silent _)) λ s. repair_or_create-Keeps device s

  existing_or_new-Keeps :
      (device : Device) (dc : DeviceClass) (pod : Option Pod)
      → Keeps (OnLog I) (existing_or_new (traced env) device dc pod)
  unfolding existing_or_new create_owned_pod
  existing_or_new-Keeps device dc (some pod) = Keeps-pure pod
  existing_or_new-Keeps device dc none = Keeps-bind (Keeps-lift _) λ owned. quiet-Keeps _ _ refl

  pub ensure_pod-Keeps :
      (device : Device) (dc : DeviceClass) → Keeps (OnLog I) (ensure_pod (traced env) device dc)
  unfolding ensure_pod
  ensure_pod-Keeps device dc =
      Keeps-bind (Keeps-optional (Keeps-silent _)) λ pod. existing_or_new-Keeps device dc pod

  unless_registered-Keeps :
      (device : Device) (host adb : String) (job : Option Job)
      → Keeps (OnLog I) (unless_registered (traced env) device host adb job)
  unfolding unless_registered create_owned_job
  unless_registered-Keeps device host adb (some job) = Keeps-pure tt
  unless_registered-Keeps device host adb none =
      Keeps-bind (Keeps-lift _) λ owned. Keeps-bind (quiet-Keeps _ _ refl) λ _. Keeps-pure tt

  register_at-Keeps :
      (device : Device) (adb : String) (stf : Option StfRef)
      → Keeps (OnLog I) (register_at (traced env) device adb stf)
  unfolding register_at
  register_at-Keeps device adb none = Keeps-pure tt
  register_at-Keeps device adb (some stf) =
      Keeps-if _ (Keeps-pure tt) (
        Keeps-bind (Keeps-optional (Keeps-silent _))
          λ job. unless_registered-Keeps device _ adb job)

  register_in_pool-Keeps :
      (device : Device) (adb : String) (pool : Option DevicePool)
      → Keeps (OnLog I) (register_in_pool (traced env) device adb pool)
  unfolding register_in_pool
  register_in_pool-Keeps device adb none = Keeps-pure tt
  register_in_pool-Keeps device adb (some pool) = register_at-Keeps device adb pool.spec.stf_ref

  pub ensure_registration-Keeps :
      (device : Device) (adb : String)
      → Keeps (OnLog I) (ensure_registration (traced env) device adb)
  unfolding ensure_registration
  ensure_registration-Keeps device adb =
      Keeps-if _ (Keeps-pure tt) (
        Keeps-bind (Keeps-optional (Keeps-silent _)) λ pool. register_in_pool-Keeps device adb pool)
