-- ===== src/PoolController/Warm/Frame.antt =====
-- An invariant of the log that creations of devices keep is kept by the warm-up loops.
use android_device_farm.Common.{
  ℕ, zero, suc, String, Bool, ◌&&◌, Option, none, some, List, [], ◌∷◌, Bool-cases, inl, inr,
}
use android_device_farm.Go.Int32.{inc32, lt32}
use android_device_farm.Api.Device.{Device}
use android_device_farm.Api.DeviceClass.{DeviceClass}
use android_device_farm.Api.DevicePool.{DevicePool, PoolClass}
use android_device_farm.Kube.Client.{Env}
use android_device_farm.Kube.Hoare.{Keeps, Keeps-pure, Keeps-bind, Keeps-optional}
use android_device_farm.Kube.Trace.{Event, traced, OnLog, Keeps-silent}
use android_device_farm.LeaseController.Capacity.{pending_lease_demand}
use android_device_farm.PoolController.Provision.{create_device}
use android_device_farm.PoolController.Warm.{
  ByClass, reserve_from, warm_loop, warm_class, warm_classes,
}

module _ {W : Type 0} (env : Env W) (I : List Event → Type 0) where
  pub reserve_from-Keeps :
      (namespace : String) (all : List Device) (classes : List PoolClass) (reserved : ℕ)
      → Keeps (OnLog I) (reserve_from (traced env) namespace all reserved classes)
  unfolding reserve_from pending_lease_demand
  reserve_from-Keeps namespace all [] reserved = Keeps-pure _
  reserve_from-Keeps namespace all (pc ∷ classes) reserved =
      Keeps-bind (Keeps-bind (Keeps-silent _) λ _. Keeps-pure _)
        λ demand. reserve_from-Keeps namespace all classes _

  module _ (pool : DevicePool)
      (creates : (dc : DeviceClass) → Keeps (OnLog I) (create_device (traced env) pool dc)) where
    warm_loop-Keeps :
        (dc : DeviceClass) (min_warm budget k have total : ℕ)
        → Keeps (OnLog I) (warm_loop (traced env) k pool dc min_warm budget have total)
    unfolding warm_loop
    warm_loop-Keeps dc min_warm budget zero have total = record { run = λ s h. h }
    warm_loop-Keeps dc min_warm budget (suc k) have total =
        elim (Bool-cases (lt32 have min_warm && lt32 total budget)) [
          | inr stop ↦ record { run = λ s h. rw stop h }
          | inl go ↦ record {
            run = λ s h. rw go (
                (Keeps-bind (creates dc)
                    λ _. warm_loop-Keeps dc min_warm budget k (inc32 have) (inc32 total)).run
                  s h);
          }
        ]

    warm_class-Keeps :
        (pc : PoolClass) (budget have total : ℕ) (missing : Bool) (dc : Option DeviceClass)
        → Keeps (OnLog I) (warm_class (traced env) pool pc budget have total missing dc)
    unfolding warm_class
    warm_class-Keeps pc budget have total missing none = Keeps-pure _
    warm_class-Keeps pc budget have total missing (some dc) =
        Keeps-bind (warm_loop-Keeps dc pc.min_warm budget _ have total) λ r. Keeps-pure _

    pub warm_classes-Keeps :
        (active : ByClass) (budget : ℕ) (classes : List PoolClass) (total : ℕ) (missing : Bool)
        → Keeps (OnLog I) (warm_classes (traced env) pool active budget classes total missing)
    unfolding warm_classes
    warm_classes-Keeps active budget [] total missing = Keeps-pure _
    warm_classes-Keeps active budget (pc ∷ classes) total missing =
        Keeps-bind (Keeps-optional (Keeps-silent _)) λ dc.
          Keeps-bind (warm_class-Keeps pc budget _ total missing dc)
            λ r. warm_classes-Keeps active budget classes r.0 r.1
