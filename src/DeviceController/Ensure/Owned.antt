-- ===== src/DeviceController/Ensure/Owned.antt =====
-- What `ensureService`, `ensurePod` and `ensureRegistration` create and repair goes by the name of the
-- device.
use android_device_farm.Common.{◌≡◌, refl, ◌∙◌, String, Bool, true, false, Option, none, some}
use android_device_farm.Api.Meta.{ObjectKey, key_of}
use android_device_farm.Api.Device.{Device}
use android_device_farm.Api.DeviceClass.{DeviceClass}
use android_device_farm.Api.DevicePool.{DevicePool, StfRef}
use android_device_farm.Kube.Objects.{Pod, Service, Job}
use android_device_farm.Kube.Client.{Env}
use android_device_farm.Kube.Laws.{KeepsKeys}
use android_device_farm.Kube.Hoare.{
  Keeps, Keeps-bind, Keeps-pure, Keeps-optional, Keeps-if, Triple, Given, Triple-bind, Triple-pure,
  Triple-lift, Triple-given, Triple-Keeps, Triple-optional, Keeps-Triple,
}
use android_device_farm.Kube.Trace.{
  Traced, traced, Keeps-sending, Keeps-silent, Triple-silent, Triple-sending_known,
}
use android_device_farm.DeviceController.Objects.{build_pod, build_service, build_register_job}
use android_device_farm.DeviceController.Owned.{
  suffixed, Logged, Own, emulator_pod_key, adb_service_key, register_job_key,
}
use android_device_farm.DeviceController.Ensure.{
  fix_service, update_if_changed, create_owned_service, repair_or_create, ensure_service,
  create_owned_pod, existing_or_new, ensure_pod, create_owned_job, unless_registered, register_at,
  register_in_pool, ensure_registration,
}

module _ {W : Type 0} (env : Env W) (laws : KeepsKeys env) (key : ObjectKey) (d : Device)
    (named : key_of d.metadata ≡ key) where
  abbrev IsOwn : Traced W → Type 0
  IsOwn = Own env.machinery key

  update_if_changed-Own :
      (r : Service × Bool)
      → key_of (r.0).metadata ≡ suffixed key "-adb"
      → Keeps IsOwn (update_if_changed (traced env) r)
  unfolding update_if_changed
  update_if_changed-Own (s, true) k =
      Keeps-bind (Keeps-sending _ _ λ log h. (k, h)) λ _. Keeps-pure tt
  update_if_changed-Own (s, false) k = Keeps-pure tt

  fix_service-key : (s : Service) → key_of (fix_service s).0.metadata ≡ key_of s.metadata
  unfolding fix_service
  fix_service-key s = refl

  create_owned_service-Own : Keeps IsOwn (create_owned_service (traced env) d)
  unfolding create_owned_service build_service
  create_owned_service-Own = Keeps-Triple (
      Triple-bind (Triple-lift _ (λ s h. h)) λ owned. Triple-given λ e. Triple-Keeps (
        Keeps-bind
          (Keeps-sending _ _ λ log h.
            ((d.metadata, (build_service d).metadata, named, adb_service_key d key named, e), h))
          λ _. Keeps-pure tt))

  repair_or_create-Own :
      (s : Option Service)
      → Triple
          (Given IsOwn (λ a w. IsOwn w × (key_of a.metadata ≡ suffixed key "-adb")) s)
          (repair_or_create (traced env) d s)
          (λ _. IsOwn)
          IsOwn
  unfolding repair_or_create
  repair_or_create-Own none = Triple-Keeps create_owned_service-Own
  repair_or_create-Own (some s) =
      Triple-given λ k. Triple-Keeps (update_if_changed-Own (fix_service s) (fix_service-key s ∙ k))

  pub ensure_service-Own : Keeps IsOwn (ensure_service (traced env) d)
  unfolding ensure_service
  ensure_service-Own = Keeps-Triple (
      Triple-bind
        (Triple-optional (
          Triple-silent (Logged env.machinery key) (λ a. key_of a.metadata ≡ suffixed key "-adb") _
            (λ w a e. laws.gets_service _ w a e ∙ adb_service_key d key named)))
        repair_or_create-Own)

  -- What is known of the pod that the reconcile goes on with.
  abbrev pub OwnPod : Pod → Traced W → Type 0
  OwnPod p s = IsOwn s × (key_of p.metadata ≡ suffixed key "-emulator")

  create_owned_pod-Own :
      (dc : DeviceClass) → Triple IsOwn (create_owned_pod (traced env) d dc) OwnPod IsOwn
  unfolding create_owned_pod build_pod
  create_owned_pod-Own dc = Triple-bind (Triple-lift _ (λ s h. h)) λ owned. Triple-given λ e.
      Triple-sending_known _ _
        (λ log h.
          ((d.metadata, (build_pod d dc).metadata, named, emulator_pod_key d key named, e), h))
        λ w q c. laws.creates_pod _ w q c ∙ laws.owns _ _ _ owned e ∙ emulator_pod_key d key named

  existing_or_new-Own :
      (dc : DeviceClass) (pod : Option Pod)
      → Triple (Given IsOwn OwnPod pod) (existing_or_new (traced env) d dc pod) OwnPod IsOwn
  unfolding existing_or_new
  existing_or_new-Own dc none = create_owned_pod-Own dc
  existing_or_new-Own dc (some pod) = Triple-pure pod

  pub ensure_pod-Own : (dc : DeviceClass) → Triple IsOwn (ensure_pod (traced env) d dc) OwnPod IsOwn
  unfolding ensure_pod
  ensure_pod-Own dc =
      Triple-bind
        (Triple-optional (
          Triple-silent (Logged env.machinery key)
            (λ a. key_of a.metadata ≡ suffixed key "-emulator") _
            (λ w a e. laws.gets_pod _ w a e ∙ emulator_pod_key d key named)))
        (existing_or_new-Own dc)

  unless_registered-Own :
      (host adb : String) (job : Option Job)
      → Keeps IsOwn (unless_registered (traced env) d host adb job)
  unfolding unless_registered create_owned_job build_register_job
  unless_registered-Own host adb (some job) = Keeps-pure tt
  unless_registered-Own host adb none = Keeps-Triple (
      Triple-bind (Triple-lift _ (λ s h. h)) λ owned. Triple-given λ e. Triple-Keeps (
        Keeps-bind
          (Keeps-sending _ _ λ log h. (
            (
              d.metadata,
              (build_register_job d host adb).metadata,
              named,
              register_job_key d key named,
              e,
            ),
            h,
          ))
          λ _. Keeps-pure tt))

  register_at-Own :
      (adb : String) (stf : Option StfRef) → Keeps IsOwn (register_at (traced env) d adb stf)
  unfolding register_at
  register_at-Own adb none = Keeps-pure tt
  register_at-Own adb (some stf) =
      Keeps-if _ (Keeps-pure tt)
        (Keeps-bind (Keeps-optional (Keeps-silent _)) λ job. unless_registered-Own _ adb job)

  register_in_pool-Own :
      (adb : String) (pool : Option DevicePool)
      → Keeps IsOwn (register_in_pool (traced env) d adb pool)
  unfolding register_in_pool
  register_in_pool-Own adb none = Keeps-pure tt
  register_in_pool-Own adb (some pool) = register_at-Own adb pool.spec.stf_ref

  pub ensure_registration-Own :
      (adb : String) → Keeps IsOwn (ensure_registration (traced env) d adb)
  unfolding ensure_registration
  ensure_registration-Own adb =
      Keeps-if _ (Keeps-pure tt)
        (Keeps-bind (Keeps-optional (Keeps-silent _)) λ pool. register_in_pool-Own adb pool)
