-- ===== src/Tests/Pools.antt =====
-- The pool controller on the small farm.
use android_device_farm.Common.{
  ◌-◌, ◌≤◌, ◌≡◌, refl, none, some, List, [], ◌∷◌, count, get_elem?, arith,
}
use android_device_farm.Api.Device.{Device, DevicePhase}
use android_device_farm.Api.DeviceLease.{LeasePhase}
use android_device_farm.Api.DevicePool.{PoolClass, ClassCounts}
use android_device_farm.Kube.Client.{Env}
use android_device_farm.Kube.Trace.{traced}
use android_device_farm.LeaseController.Select.{unclaimed_supply}
use android_device_farm.PoolController.Counts.{compute_counts, no_counts}
use android_device_farm.PoolController.Counts.Entries.{counted, compute_counts_entry}
use android_device_farm.PoolController.Warm.{rounds, warm_loop, active_by_class, all_devices}
use android_device_farm.PoolController.Warm.Budget.{Warmed, warm_loop_within_budget}
use android_device_farm.PoolController.Warm.Creations.{is_creation, spare, warm_loop-creations}
use android_device_farm.PoolController.Warm.Grouping.{unclaimed_supply-groups}
use android_device_farm.Tests.Farm.{farm, tablet, phone, pool, dc, lease_in, class_of, device_with}

abbrev taken : Device
taken = device_with "phone-2" "phone" DevicePhase.leased "ci-7" none []

abbrev devices : List Device
devices = tablet ∷ phone ∷ taken ∷ []

abbrev server : Env Unit
server = farm (lease_in LeasePhase.pending none) devices phone

abbrev classes : List PoolClass
classes = class_of "phone" 3 ∷ class_of "tablet" 1 ∷ []

warm_loop-creations_example :
    let made =
      count is_creation
        (warm_loop
          (traced server)
          (rounds 2 3)
          pool
          dc
          3
          5
          2
          3
          (record { world = tt; log = [] })).1.log in
    (made ≤ 3 - 2) × (made ≤ spare 5 3)
warm_loop-creations_example =
    warm_loop-creations server pool dc 3 5 2 3 tt (omega arith) (omega arith) (omega arith)
      (omega arith)

warm_loop_within_budget_example : Warmed 3 5 2 3 (warm_loop server (rounds 2 3) pool dc 3 5 2 3 tt)
warm_loop_within_budget_example =
    warm_loop_within_budget server pool dc 3 5 2 3 tt (omega arith) (omega arith) (omega arith)
      (omega arith)

compute_counts_entry_example :
    get_elem? (compute_counts classes devices) 0
    ≡ some (counted classes 0 devices (no_counts (class_of "phone" 3)))
compute_counts_entry_example = compute_counts_entry classes devices 0 (class_of "phone" 3) refl

abbrev phones : ClassCounts
phones = record { class = "phone"; total = 2; ready = 1; leased = 1; provisioning = 0 }

phones_counted : get_elem? (compute_counts classes devices) 0 ≡ some phones
unfolding compute_counts
phones_counted = refl

unclaimed_supply-groups_example :
    unclaimed_supply (all_devices (active_by_class devices)) "phone"
    ≡ unclaimed_supply devices "phone"
unclaimed_supply-groups_example = unclaimed_supply-groups devices "phone"
