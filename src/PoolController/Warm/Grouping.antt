-- ===== src/PoolController/Warm/Grouping.antt =====
-- Grouping the pool's devices by class loses none and adds none.
use android_device_farm.Common.{
  ℕ, suc, ◌+◌, ◌%◌, ◌<◌, ◌≡◌, refl, sym, ap, ◌∙◌, String, Bool, true, ◌&&◌, List, [], ◌∷◌, ◌++◌,
  count, length, keep, length-append, count-append, count-cons, append_assoc-cons, arith, str_eq,
  eq_iff, is_none, if◌then◌else◌, Bool-cases, inl, inr,
}
use android_device_farm.Go.Int32.{int32_mod, add32, to_int32}
use android_device_farm.Api.Device.{Device}
use android_device_farm.LeaseController.Select.{unclaimed_supply, is_unclaimed, active_devices}
use android_device_farm.LeaseController.Select.Count.{supply-count}
use android_device_farm.PoolController.Warm.{
  ByClass, append_to, group_from, active_by_class, devices_of, total_from, all_devices,
}

abbrev pub is_active : Device → Bool
is_active d = is_none d.metadata.deletion_timestamp

devices_of-append_to :
    (c class : String) (d : Device) (m : ByClass)
    → devices_of c (append_to class d m)
      ≡ (if str_eq class c then devices_of c m ++ d ∷ [] else devices_of c m)
unfolding append_to
devices_of-append_to c class d [] = ground arith
devices_of-append_to c class d ((k, ds) ∷ m) =
    ground (arith, eq_iff k class, eq_iff k c, eq_iff class c, devices_of-append_to c class d m)

count-append_to :
    (p : Device → Bool) (class : String) (d : Device) (m : ByClass)
    → count p (all_devices (append_to class d m)) ≡ count p (all_devices m) + count p (d ∷ [])
unfolding append_to all_devices
count-append_to p class d [] = omega arith
count-append_to p class d ((k, ds) ∷ m) = elim (Bool-cases (str_eq k class)) [
  | inl same ↦ rw same (
      omega (
        arith,
        count-append p (ds ++ d ∷ []) (all_devices m),
        count-append p ds (d ∷ []),
        count-append p ds (all_devices m),
      ))
  | inr other ↦ rw other (
      omega (
        arith,
        count-append p ds (all_devices (append_to class d m)),
        count-append p ds (all_devices m),
        count-append_to p class d m,
      ))
]

count-group_from :
    (p : Device → Bool) (m : ByClass) (devices : List Device)
    → count p (all_devices (group_from m devices))
      ≡ count p (all_devices m) + count p (keep is_active devices)
unfolding group_from
count-group_from p m [] = omega arith
count-group_from p m (d ∷ devices) = elim (Bool-cases (is_active d)) [
  | inl live ↦ rw live (
      omega (
        arith,
        count-group_from p (append_to d.spec.class_ref d m) devices,
        count-append_to p d.spec.class_ref d m,
        count-cons p d (keep is_active devices),
      ))
  | inr going ↦ rw going (count-group_from p m devices)
]

count-unclaimed_active :
    (class : String) (devices : List Device)
    → count (is_unclaimed class) (keep is_active devices) ≡ count (is_unclaimed class) devices
count-unclaimed_active class [] = refl
count-unclaimed_active class (d ∷ devices) = elim (Bool-cases (is_active d)) [
  | inl live ↦ rw live (ground (arith, count-unclaimed_active class devices))
  | inr going ↦ rw going (count-unclaimed_active class devices)
]

-- The supply of a class that the pool controller reads off its groups is that of the plain list,
-- which is what the lease controller reads.
pub unclaimed_supply-groups :
    (devices : List Device) (class : String)
    → unclaimed_supply (all_devices (active_by_class devices)) class
      ≡ unclaimed_supply devices class
unfolding active_by_class all_devices
unclaimed_supply-groups devices class =
    rw (supply-count, supply-count devices class)
      (omega (
        arith,
        count-group_from (is_unclaimed class) [] devices,
        count-unclaimed_active class devices,
      ))

total_from-length :
    (total : ℕ) (m : ByClass)
    → total < int32_mod
    → total_from total m ≡ (total + length (all_devices m)) % int32_mod
unfolding total_from all_devices
total_from-length total [] h = omega arith
total_from-length total ((c, ds) ∷ m) h = omega (
  arith,
  total_from-length (add32 total (to_int32 (length ds))) m (omega arith),
  length-append ds (all_devices m),
)

length-count : (devices : List Device) → length devices ≡ count (λ d. true) devices
length-count [] = refl
length-count (d ∷ devices) = ap suc (length-count devices)

-- The total of the groups is the number of devices of the list that are not being deleted,
-- wrapped to 32 bits.
pub total-active :
    (devices : List Device)
    → total_from 0 (active_by_class devices) ≡ to_int32 (length (active_devices devices))
unfolding active_by_class active_devices all_devices
total-active devices = omega (
  arith,
  total_from-length 0 (group_from [] devices) (omega arith),
  length-count (all_devices (group_from [] devices)),
  length-count (keep is_active devices),
  count-group_from (λ d. true) [] devices,
)

append_nil-append : (xs : List Device) → xs ++ [] ≡ xs
append_nil-append [] = refl
append_nil-append (x ∷ xs) = ap (◌∷◌ x) (append_nil-append xs)

devices_of-group_from :
    (class : String) (m : ByClass) (devices : List Device)
    → devices_of class (group_from m devices)
      ≡ devices_of class m ++ keep (λ d. is_active d && str_eq d.spec.class_ref class) devices
unfolding group_from
devices_of-group_from class m [] = sym (append_nil-append (devices_of class m))
devices_of-group_from class m (d ∷ devices) = elim (Bool-cases (is_active d)) [
  | inr going ↦ rw going (devices_of-group_from class m devices)
  | inl live ↦ elim (Bool-cases (str_eq d.spec.class_ref class)) [
    | inl same ↦
        rw (live, same)
          (devices_of-group_from class (append_to d.spec.class_ref d m) devices
            ∙ rw (devices_of-append_to, same)
                (append_assoc-cons (devices_of class m)
                  (keep (λ d. is_active d && str_eq d.spec.class_ref class) devices) d))
    | inr other ↦
        rw (live, other)
          (devices_of-group_from class (append_to d.spec.class_ref d m) devices
            ∙ rw (devices_of-append_to, other) refl)
  ]
]

-- The group of a class holds the devices of that class that are not being deleted, in the order
-- of the list.
pub devices_of-active :
    (devices : List Device) (class : String)
    → devices_of class (active_by_class devices)
      ≡ keep (λ d. is_active d && str_eq d.spec.class_ref class) devices
unfolding active_by_class
devices_of-active devices class = devices_of-group_from class [] devices
