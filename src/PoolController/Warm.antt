-- ===== src/PoolController/Warm.antt =====
-- The capacity arithmetic and the warm-up loops of `Reconcile` in devicepool_controller.go.
pub mod Grouping
pub mod Budget
pub mod Creations
pub mod Classes
pub mod Frame
use android_device_farm.Common.{
  ℕ, zero, suc, ◌+◌, ◌-◌, ◌%◌, String, Bool, true, ◌&&◌, Option, none, some, List, [], ◌∷◌, ◌++◌,
  str_eq, is_none, length, if◌then◌else◌,
}
use android_device_farm.Go.Int32.{int32_mod, int32_max, to_int32, add32, sub32, inc32, lt32}
use android_device_farm.Api.Device.{Device}
use android_device_farm.Api.DeviceClass.{DeviceClass}
use android_device_farm.Api.DevicePool.{DevicePool, PoolClass}
use android_device_farm.Kube.Effect.{ok, Exec, pure, optional, ◌>>=◌, ◌>>◌}
use android_device_farm.Kube.Client.{Env}
use android_device_farm.LeaseController.Select.{unclaimed_supply}
use android_device_farm.LeaseController.Capacity.{pending_lease_demand}
use android_device_farm.PoolController.Provision.{create_device}

-- `map[string][]Device`, in the order of the first device of each class.
abbrev pub ByClass : Type 0
ByClass = List (String × List Device)

-- `byClass[class] = append(byClass[class], d)`
pub append_to : String → Device → ByClass → ByClass
append_to class d [] = (class, d ∷ []) ∷ []
append_to class d ((c, ds) ∷ m) =
    let rest = append_to class d m in
    if str_eq c class then (c, ds ++ d ∷ []) ∷ m else (c, ds) ∷ rest

pub group_from : ByClass → List Device → ByClass
unfolding append_to
group_from m [] = m
group_from m (d ∷ devices) =
    group_from (if is_none d.metadata.deletion_timestamp then append_to d.spec.class_ref d m else m)
      devices

-- The loop of `activeDevicesByClass`.
unfoldable pub active_by_class : List Device → ByClass
unfolding group_from
active_by_class devices = group_from [] devices

-- `active[class]`, empty where the class has no entry
abbrev pub devices_of : String → ByClass → List Device
devices_of class [] = []
devices_of class ((c, ds) ∷ m) =
    let rest = devices_of class m in if str_eq c class then ds else rest

-- `total` and `all`, the sums over the map
pub total_from : ℕ → ByClass → ℕ
total_from total [] = total
total_from total ((c, ds) ∷ m) = total_from (add32 total (to_int32 (length ds))) m

pub all_devices : ByClass → List Device
all_devices [] = []
all_devices ((c, ds) ∷ m) = ds ++ all_devices m

-- `demand - supply` added to the reservation, where demand exceeds supply
abbrev pub reserve : ℕ → ℕ → ℕ → ℕ
reserve reserved demand supply =
    if lt32 supply demand then add32 reserved (sub32 demand supply) else reserved

-- The rounds that `have < minWarm` allows: the distance between the two as signed numbers.
abbrev pub rounds : ℕ → ℕ → ℕ
rounds have min_warm = (min_warm + int32_max) % int32_mod - (have + int32_max) % int32_mod

module _ {W : Type 0} (env : Env W) where
  pub reserve_from : String → List Device → ℕ → List PoolClass → Exec W ℕ
  reserve_from namespace all reserved [] = pure reserved
  reserve_from namespace all reserved (pc ∷ classes) = do
    demand ← pending_lease_demand env namespace pc.name
    reserve_from namespace all (reserve reserved demand (unclaimed_supply all pc.name)) classes

  -- The inner loop, from `have` and `total`; it gives back both. The first argument is the number of
  -- rounds left, of which `rounds` is enough.
  pub warm_loop : ℕ → DevicePool → DeviceClass → ℕ → ℕ → ℕ → ℕ → Exec W (ℕ × ℕ)
  warm_loop zero pool dc min_warm budget have total w = (ok (have, total), w)
  warm_loop (suc k) pool dc min_warm budget have total w =
      let next =
        (do
          create_device env pool dc
          warm_loop k pool dc min_warm budget (inc32 have) (inc32 total))
          w in
      if lt32 have min_warm && lt32 total budget then next else (ok (have, total), w)

  -- One class of the outer loop: the total and `classMissing` behind it.
  warm_class : DevicePool → PoolClass → ℕ → ℕ → ℕ → Bool → Option DeviceClass → Exec W (ℕ × Bool)
  unfolding warm_loop
  warm_class pool pc budget have total missing none = pure (total, true)
  warm_class pool pc budget have total missing (some dc) = do
    (_, total') ← warm_loop (rounds have pc.min_warm) pool dc pc.min_warm budget have total
    pure (total', missing)

  pub warm_classes : DevicePool → ByClass → ℕ → List PoolClass → ℕ → Bool → Exec W (ℕ × Bool)
  unfolding warm_class
  warm_classes pool active budget [] total missing = pure (total, missing)
  warm_classes pool active budget (pc ∷ classes) total missing = do
    dc ← optional (env.get_device_class (record { namespace = ""; name = pc.name }))
    (total', missing') ←
        warm_class pool pc budget (to_int32 (length (devices_of pc.name active))) total missing dc
    warm_classes pool active budget classes total' missing'
