-- ===== src/LeaseController/Select.antt =====
-- The choices that devicelease_controller.go makes over lists of devices, leases and pools.
pub mod Count
pub mod Lru
use android_device_farm.Common.{
  ℕ, String, Bool, true, false, ◌&&◌, ◌||◌, not, Option, none, some, List, [], ◌∷◌, str_eq, is_none,
  if◌then◌else◌, keep, first,
}
use android_device_farm.Go.Time.{Time, before}
use android_device_farm.Go.Int32.{inc32}
use android_device_farm.Api.Device.{Device, DevicePhase, provisioning, ready}
use android_device_farm.Api.DeviceLease.{DeviceLease, LeasePhase, pending}
use android_device_farm.Api.DevicePool.{DevicePool, PoolClass}

-- `list.Items[i].Status.LeaseRef == lease.Name`
abbrev pub is_bound_to : String → Device → Bool
is_bound_to lease d = str_eq d.status.lease_ref lease

abbrev pub is_ready : DevicePhase → Bool
is_ready ready = true
is_ready _ = false

-- The test of `freeReadyDevice`.
abbrev pub is_free_ready : Device → Bool
is_free_ready d =
    is_none d.metadata.deletion_timestamp && is_ready d.status.phase && str_eq d.status.lease_ref ""

-- `activeDevices`
unfoldable pub active_devices : List Device → List Device
active_devices = keep (λ d. is_none d.metadata.deletion_timestamp)

-- The phases that `unclaimedSupply` counts.
abbrev pub is_coming : DevicePhase → Bool
is_coming ready = true
is_coming provisioning = true
is_coming DevicePhase.unset = true
is_coming _ = false

abbrev pub is_unclaimed : String → Device → Bool
is_unclaimed class d =
    not (
      not (is_none d.metadata.deletion_timestamp)
      || not (str_eq d.spec.class_ref class)
      || not (str_eq d.status.lease_ref ""))
    && is_coming d.status.phase

pub supply_from : String → ℕ → List Device → ℕ
supply_from class n [] = n
supply_from class n (d ∷ devs) =
    supply_from class (if is_unclaimed class d then inc32 n else n) devs

-- `unclaimedSupply`, an `int32`
unfoldable pub unclaimed_supply : List Device → String → ℕ
unfolding supply_from
unclaimed_supply devs class = supply_from class 0 devs

-- The phases of an unsatisfied lease, in `pendingLeaseDemand` and `leasesForDevice`.
abbrev pub is_waiting : LeasePhase → Bool
is_waiting LeasePhase.unset = true
is_waiting pending = true
is_waiting _ = false

abbrev pub is_demand : String → DeviceLease → Bool
is_demand class l =
    not (not (is_none l.metadata.deletion_timestamp) || not (str_eq l.spec.class_ref class))
    && is_waiting l.status.phase

pub demand_from : String → ℕ → List DeviceLease → ℕ
demand_from class n [] = n
demand_from class n (l ∷ leases) =
    demand_from class (if is_demand class l then inc32 n else n) leases

-- The loop of `pendingLeaseDemand`, an `int32`
unfoldable pub count_demand : List DeviceLease → String → ℕ
unfolding demand_from
count_demand leases class = demand_from class 0 leases

abbrev pub older : Option Time → Option Time → Bool
older none b = true
older (some a) none = false
older (some a) (some b) = before a b

-- `olderLastUsed`
unfoldable pub older_last_used : Device → Device → Bool
older_last_used a b = older a.status.last_used_time b.status.last_used_time

-- Past the two `continue`s of `lruIdleOtherClass`.
abbrev pub is_idle_other : String → Device → Bool
is_idle_other class d =
    not (not (is_none d.metadata.deletion_timestamp) || str_eq d.spec.class_ref class)
    && not (not (is_ready d.status.phase) || not (str_eq d.status.lease_ref ""))

-- `best == nil || olderLastUsed(d, best)`
abbrev pub replaces : Device → Option Device → Bool
replaces d none = true
replaces d (some best) = older_last_used d best

pub lru_from : String → Option Device → List Device → Option Device
unfolding older_last_used
lru_from class best [] = best
lru_from class best (d ∷ devs) =
    lru_from class (if is_idle_other class d && replaces d best then some d else best) devs

-- `lruIdleOtherClass`
unfoldable pub lru_idle_other_class : List Device → String → Option Device
unfolding lru_from
lru_idle_other_class devs class = lru_from class none devs

abbrev pub offers : String → List PoolClass → Bool
offers class [] = false
offers class (c ∷ classes) = str_eq c.name class || offers class classes

-- The search of `resolvePool` for a lease that names no pool.
unfoldable pub pool_for_class : String → List DevicePool → Option DevicePool
pool_for_class class = first (λ p. offers class p.spec.classes)
