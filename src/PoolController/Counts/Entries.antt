-- ===== src/PoolController/Counts/Entries.antt =====
-- What each entry of `computeCounts` holds.
use android_device_farm.Common.{
  ℕ, zero, suc, ◌+◌, ◌%◌, ◌<◌, ◌≡◌, refl, sym, ap, Bool, true, false, ◌&&◌, Option, none, some,
  List, [], ◌∷◌, map, count, get_elem?, get_elem?-total, length, count-le-length, ◌∙◌, some_inj,
  arith, ◌==◌, inl, inr, Bool-cases,
}
use android_device_farm.Go.Int32.{int32_mod}
use android_device_farm.Api.Device.{Device, DevicePhase}
use android_device_farm.Api.DevicePool.{PoolClass, ClassCounts}
use android_device_farm.PoolController.Counts.{
  no_counts, index_from, tally, tally_at, tally_known, counts_from, compute_counts,
}

abbrev is_index : ℕ → Option ℕ → Bool
is_index i none = false
is_index i (some n) = n == i

-- The device is counted in entry `i`.
abbrev pub counted_in : List PoolClass → ℕ → Device → Bool
counted_in classes i d = is_index i (index_from 0 d.spec.class_ref classes)

abbrev pub is_ready : DevicePhase → Bool
is_ready DevicePhase.ready = true
is_ready _ = false

abbrev pub is_leased : DevicePhase → Bool
is_leased DevicePhase.leased = true
is_leased _ = false

abbrev pub is_neither : DevicePhase → Bool
is_neither DevicePhase.ready = false
is_neither DevicePhase.leased = false
is_neither _ = true

-- Entry `i` after `devices` were counted into `entry`.
abbrev pub counted : List PoolClass → ℕ → List Device → ClassCounts → ClassCounts
counted classes i devices entry = record {
  class = entry.class;
  total = (entry.total + count (counted_in classes i) devices) % int32_mod;
  ready =
      (entry.ready + count (λ d. counted_in classes i d && is_ready d.status.phase) devices)
      % int32_mod;
  leased =
      (entry.leased + count (λ d. counted_in classes i d && is_leased d.status.phase) devices)
      % int32_mod;
  provisioning =
      (entry.provisioning
        + count (λ d. counted_in classes i d && is_neither d.status.phase) devices)
      % int32_mod;
}

abbrev tally_if : Bool → DevicePhase → Option ClassCounts → Option ClassCounts
tally_if true phase (some entry) = some (tally phase entry)
tally_if _ phase o = o

get-tally_at :
    (n i : ℕ) (phase : DevicePhase) (out : List ClassCounts)
    → get_elem? (tally_at n phase out) i ≡ tally_if (n == i) phase (get_elem? out i)
unfolding tally_at
get-tally_at zero i phase [] = ground arith
get-tally_at (suc n) i phase [] = ground arith
get-tally_at zero zero phase (entry ∷ out) = refl
get-tally_at zero (suc i) phase (entry ∷ out) = ground arith
get-tally_at (suc n) zero phase (entry ∷ out) = ground arith
get-tally_at (suc n) (suc i) phase (entry ∷ out) = ground (arith, get-tally_at n i phase out)

abbrev pub IsSmall : ClassCounts → Type 0
IsSmall entry =
    (entry.total < int32_mod)
    × (entry.ready < int32_mod)
    × (entry.leased < int32_mod)
    × (entry.provisioning < int32_mod)

tally-IsSmall :
    (phase : DevicePhase) (entry : ClassCounts) → IsSmall entry → IsSmall (tally phase entry)
tally-IsSmall phase entry h = ground arith

get-tally_known :
    (o : Option ℕ) (i : ℕ) (phase : DevicePhase) (out : List ClassCounts)
    → get_elem? (tally_known o phase out) i ≡ tally_if (is_index i o) phase (get_elem? out i)
unfolding tally_known
get-tally_known none i phase out = ground arith
get-tally_known (some n) i phase out = get-tally_at n i phase out

counted-nil :
    (classes : List PoolClass) (i : ℕ) (entry : ClassCounts)
    → IsSmall entry
    → counted classes i [] entry ≡ entry
counted-nil classes i entry h = ground arith

counted-cons_in :
    (classes : List PoolClass) (i : ℕ) (d : Device) (devices : List Device) (entry : ClassCounts)
    → counted_in classes i d ≡ true
    → counted classes i (d ∷ devices) entry ≡ counted classes i devices (tally d.status.phase entry)
counted-cons_in classes i d devices entry h = ground arith

counted-cons_out :
    (classes : List PoolClass) (i : ℕ) (d : Device) (devices : List Device) (entry : ClassCounts)
    → counted_in classes i d ≡ false
    → counted classes i (d ∷ devices) entry ≡ counted classes i devices entry
counted-cons_out classes i d devices entry h = ground arith

abbrev next_counts : List PoolClass → Device → List ClassCounts → List ClassCounts
next_counts classes d out = tally_known (index_from 0 d.spec.class_ref classes) d.status.phase out

counts_from-counted :
    (classes : List PoolClass) (i : ℕ) (out : List ClassCounts) (devices : List Device)
    (entry : ClassCounts)
    → IsSmall entry
    → get_elem? out i ≡ some entry
    → get_elem? (counts_from classes out devices) i ≡ some (counted classes i devices entry)
unfolding counts_from
counts_from-counted classes i out [] entry h e = e ∙ ap some (sym (counted-nil classes i entry h))
counts_from-counted classes i out (d ∷ devices) entry h e =
    elim (Bool-cases (counted_in classes i d)) [
      | inl inside ↦ rw (counted-cons_in classes i d devices entry inside) (
          counts_from-counted classes i (next_counts classes d out) devices
            (tally d.status.phase entry) (tally-IsSmall d.status.phase entry h)
            (get-tally_known (index_from 0 d.spec.class_ref classes) i d.status.phase out
              ∙ rw (inside, e) refl))
      | inr outside ↦ rw (counted-cons_out classes i d devices entry outside) (
          counts_from-counted classes i (next_counts classes d out) devices entry h (
            get-tally_known (index_from 0 d.spec.class_ref classes) i d.status.phase out
            ∙ rw (outside, e) refl))
    ]

get-map :
    (classes : List PoolClass) (i : ℕ) (pc : PoolClass)
    → get_elem? classes i ≡ some pc
    → get_elem? (map no_counts classes) i ≡ some (no_counts pc)
get-map [] i pc e = cc
get-map (c ∷ classes) zero pc e = cc
get-map (c ∷ classes) (suc i) pc e = get-map classes i pc e

-- Entry `i` of the counts has the name of class `i` and holds the numbers of devices that the index
-- assigns to it: all, those Ready, those Leased, and the rest; each wrapped to 32 bits.
pub compute_counts_entry :
    (classes : List PoolClass) (devices : List Device) (i : ℕ) (pc : PoolClass)
    → get_elem? classes i ≡ some pc
    → get_elem? (compute_counts classes devices) i ≡ some (counted classes i devices (no_counts pc))
unfolding compute_counts
compute_counts_entry classes devices i pc e =
    counts_from-counted classes i (map no_counts classes) devices (no_counts pc) (omega arith)
      (get-map classes i pc e)

count_split :
    (p : Device → Bool) (devices : List Device)
    → count p devices
      ≡ count (λ d. p d && is_ready d.status.phase) devices
        + count (λ d. p d && is_leased d.status.phase) devices
        + count (λ d. p d && is_neither d.status.phase) devices
count_split p [] = omega arith
count_split p (d ∷ devices) = ground (arith, count_split p devices)

total_of_parts :
    (classes : List PoolClass) (devices : List Device) (i : ℕ) (pc : PoolClass)
    (entry : ClassCounts)
    → length devices < int32_mod
    → entry ≡ counted classes i devices (no_counts pc)
    → entry.total ≡ entry.ready + entry.leased + entry.provisioning
total_of_parts classes devices i pc entry short same = rw same (
    omega (
      arith,
      count_split (counted_in classes i) devices,
      count-le-length (counted_in classes i) devices,
    ))

-- For fewer than 2 ^ 32 devices the three parts of each entry add up to its total.
pub compute_counts_total :
    (classes : List PoolClass) (devices : List Device) (i : ℕ) (entry : ClassCounts)
    → length devices < int32_mod
    → i < length classes
    → get_elem? (compute_counts classes devices) i ≡ some entry
    → entry.total ≡ entry.ready + entry.leased + entry.provisioning
compute_counts_total classes devices i entry short inside e =
    let (pc, found) = get_elem?-total classes i inside in
    total_of_parts classes devices i pc entry short
      (some_inj (sym e ∙ compute_counts_entry classes devices i pc found))
