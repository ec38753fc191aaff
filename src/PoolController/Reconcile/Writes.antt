-- ===== src/PoolController/Reconcile/Writes.antt =====
-- What a reconcile of a pool sends to the API server.
use android_device_farm.Common.{◌≡◌, refl, Bool, Option, none, some, List, [], All}
use android_device_farm.Api.Meta.{ObjectKey, key_of}
use android_device_farm.Api.Device.{Device}
use android_device_farm.Api.DeviceClass.{DeviceClass}
use android_device_farm.Api.DevicePool.{DevicePool}
use android_device_farm.Kube.Effect.{ok}
use android_device_farm.Kube.Client.{Env, Machinery}
use android_device_farm.Kube.Laws.{GetsPoolByKey}
use android_device_farm.Kube.Hoare.{
  Keeps, Keeps-pure, Keeps-bind, Triple, Given, Triple-bind, Triple-lift, Triple-given,
  Triple-Keeps, Triple-optional, Keeps-Triple,
}
use android_device_farm.Kube.Trace.{
  Event, saw_devices, created_device, sent_pool_status, Traced, traced, OnLog, Triple-silent,
  Keeps-sending, Keeps-seeing,
}
use android_device_farm.PoolController.Provision.{new_pool_device, create_device}
use android_device_farm.PoolController.Warm.Frame.{reserve_from-Keeps, warm_classes-Keeps}
use android_device_farm.PoolController.Reconcile.{
  with_counts, update_status, warm_up, reconcile_found, reconcile,
}

-- A device as the pool makes it for a class, under an owner reference to the pool.
abbrev pub Owned : Machinery → DevicePool → Device → Type 0
Owned m pool d =
    (dc : DeviceClass) × ((m.set_controller_reference "DevicePool" pool.metadata
          (new_pool_device pool dc).metadata
        ≡ ok d.metadata)
      × (d.spec ≡ (new_pool_device pool dc).spec)
      × (d.status ≡ (new_pool_device pool dc).status))

-- A read, a creation of a device of the pool with this key, or a write of this pool's status.
abbrev pub IsPoolEvent : Machinery → ObjectKey → Event → Type 0
IsPoolEvent m key (saw_devices ds) = Unit
IsPoolEvent m key (created_device d) =
    (pool : DevicePool) × ((key_of pool.metadata ≡ key) × Owned m pool d)
IsPoolEvent m key (sent_pool_status p) = key_of p.metadata ≡ key
IsPoolEvent m key e = ⊥

module _ {W : Type 0} (env : Env W) (key : ObjectKey) where
  abbrev Logged : List Event → Type 0
  Logged = All (IsPoolEvent env.machinery key)

  abbrev Sound : Traced W → Type 0
  Sound = OnLog Logged

  module _ (pool : DevicePool) (named : key_of pool.metadata ≡ key) where
    create_device-Sound : (dc : DeviceClass) → Keeps Sound (create_device (traced env) pool dc)
    unfolding create_device
    create_device-Sound dc = Keeps-Triple (
        Triple-bind (Triple-lift _ (λ s h. h)) λ owned. Triple-given λ e. Triple-Keeps (
          Keeps-bind (Keeps-sending _ _ λ log h. ((pool, (named, (dc, (e, refl, refl)))), h))
            λ _. Keeps-pure tt))

    update_status-Sound : (missing : Bool) → Keeps Sound (update_status (traced env) pool missing)
    unfolding update_status with_counts
    update_status-Sound missing =
        Keeps-bind (Keeps-seeing _ _ λ ds log h. (tt, h))
          λ devices. Keeps-bind (Keeps-sending _ _ λ log h. (named, h)) λ _. Keeps-pure tt

    reconcile_found-Sound : Keeps Sound (reconcile_found (traced env) (some pool))
    unfolding reconcile_found warm_up
    reconcile_found-Sound = Keeps-bind (Keeps-seeing _ _ λ ds log h. (tt, h)) λ devices.
        Keeps-bind (reserve_from-Keeps env Logged _ _ _ _) λ reserved.
          Keeps-bind (warm_classes-Keeps env Logged pool create_device-Sound _ _ _ _ _)
            λ r. Keeps-bind (update_status-Sound _) λ _. Keeps-pure _

  found-Sound :
      (pool : Option DevicePool)
      → Triple
          (Given Sound (λ p s. Sound s × (key_of p.metadata ≡ key)) pool)
          (reconcile_found (traced env) pool)
          (λ _. Sound)
          Sound
  unfolding reconcile_found
  found-Sound none = Triple-Keeps (Keeps-pure _)
  found-Sound (some pool) = Triple-given λ named. Triple-Keeps (reconcile_found-Sound pool named)

  reconcile-Sound : GetsPoolByKey env → Keeps Sound (reconcile (traced env) key)
  unfolding reconcile
  reconcile-Sound gets = Keeps-Triple (
      Triple-bind
        (Triple-optional
          (Triple-silent Logged (λ p. key_of p.metadata ≡ key) (env.get_pool key) (gets key)))
        found-Sound)

  -- Where `Get` returns the pool of the key that it is asked for: a reconcile of a pool, however it
  -- ends and whatever the API server answers, sends nothing but creations of devices, each as
  -- `newPoolDevice` makes it for this pool and under an owner reference to it, and writes of this
  -- pool's status.
  pub reconcile-IsPoolEvent :
      (w : W)
      → GetsPoolByKey env
      → All
          (IsPoolEvent env.machinery key)
          (reconcile (traced env) key (record { world = w; log = [] })).1.log
  reconcile-IsPoolEvent w gets =
      ((reconcile-Sound gets).run (record { world = w; log = [] }) (record { logged = tt })).logged
