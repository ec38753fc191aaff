-- ===== src/LeaseController/Select/Count.antt =====
-- `unclaimedSupply` and `pendingLeaseDemand` count what passes their tests, modulo 2 ^ 32.
use android_device_farm.Common.{
  none, true, ◌↔◌, ◌⊎◌, eq_iff, ℕ, ◌+◌, ◌%◌, ◌<◌, ◌≡◌, String, List, [], ◌∷◌, count, arith,
  Bool-cases, inl, inr,
}
use android_device_farm.Go.Int32.{int32_mod, inc32}
use android_device_farm.Api.Device.{Device, DevicePhase, ready, provisioning}
use android_device_farm.Api.DeviceLease.{DeviceLease, LeasePhase}
use android_device_farm.LeaseController.Select.{
  supply_from, unclaimed_supply, is_unclaimed, demand_from, count_demand, is_demand,
}

supply_from-count :
    (class : String) (n : ℕ) (devs : List Device)
    → n < int32_mod
    → supply_from class n devs ≡ (n + count (is_unclaimed class) devs) % int32_mod
unfolding supply_from
supply_from-count class n [] h = omega arith
supply_from-count class n (d ∷ devs) h = elim (Bool-cases (is_unclaimed class d)) [
  | inl passes ↦ rw passes (omega (arith, supply_from-count class (inc32 n) devs (omega arith)))
  | inr fails ↦ rw fails (supply_from-count class n devs h)
]

demand_from-count :
    (class : String) (n : ℕ) (leases : List DeviceLease)
    → n < int32_mod
    → demand_from class n leases ≡ (n + count (is_demand class) leases) % int32_mod
unfolding demand_from
demand_from-count class n [] h = omega arith
demand_from-count class n (l ∷ leases) h = elim (Bool-cases (is_demand class l)) [
  | inl passes ↦ rw passes (omega (arith, demand_from-count class (inc32 n) leases (omega arith)))
  | inr fails ↦ rw fails (demand_from-count class n leases h)
]

pub supply-count :
    (devs : List Device) (class : String)
    → unclaimed_supply devs class ≡ count (is_unclaimed class) devs % int32_mod
unfolding unclaimed_supply
supply-count devs class = omega (arith, supply_from-count class 0 devs (omega arith))

-- A device that can serve a lease of the class soon: it is not being deleted, no lease holds it, and
-- it is Ready, Provisioning or new.
abbrev pub IsSupply : String → Device → Type 0
IsSupply class d =
    (d.metadata.deletion_timestamp ≡ none)
    × (d.spec.class_ref ≡ class)
    × (d.status.lease_ref ≡ "")
    × ((d.status.phase ≡ ready)
        ⊎ (d.status.phase ≡ provisioning)
        ⊎ (d.status.phase ≡ DevicePhase.unset))

-- A lease of the class that waits for a device.
abbrev pub IsDemand : String → DeviceLease → Type 0
IsDemand class l =
    (l.metadata.deletion_timestamp ≡ none)
    × (l.spec.class_ref ≡ class)
    × ((l.status.phase ≡ LeasePhase.unset) ⊎ (l.status.phase ≡ LeasePhase.pending))

is_unclaimed_iff : (class : String) (d : Device) → (is_unclaimed class d ≡ true) ↔ IsSupply class d
is_unclaimed_iff class d =
    ground (arith, eq_iff d.spec.class_ref class, eq_iff d.status.lease_ref "")

is_demand_iff : (class : String) (l : DeviceLease) → (is_demand class l ≡ true) ↔ IsDemand class l
is_demand_iff class l = ground (arith, eq_iff l.spec.class_ref class)

-- `unclaimedSupply` is the number of devices that pass its test, wrapped to 32 bits, and these are the
-- devices of the class that are not being deleted, that no lease holds, and that are Ready,
-- Provisioning or without a phase yet.
pub unclaimed_supply-count :
    (devs : List Device) (class : String)
    → (unclaimed_supply devs class ≡ count (is_unclaimed class) devs % int32_mod)
      × ((d : Device) → (is_unclaimed class d ≡ true) ↔ IsSupply class d)
unclaimed_supply-count devs class = (supply-count devs class, is_unclaimed_iff class)

-- The demand that `pendingLeaseDemand` counts is the number of leases that pass its test, wrapped to
-- 32 bits, and these are the leases of the class that are not being deleted and are Pending or
-- without a phase yet.
pub count_demand-count :
    (leases : List DeviceLease) (class : String)
    → (count_demand leases class ≡ count (is_demand class) leases % int32_mod)
      × ((l : DeviceLease) → (is_demand class l ≡ true) ↔ IsDemand class l)
unfolding count_demand
count_demand-count leases class =
    (omega (arith, demand_from-count class 0 leases (omega arith)), is_demand_iff class)
