-- ===== src/PoolController/Counts.antt =====
-- `computeCounts` of devicepool_controller.go.
pub mod Entries
use android_device_farm.Common.{
  ℕ, zero, suc, String, Option, none, some, List, [], ◌∷◌, map, str_eq, if◌then◌else◌,
}
use android_device_farm.Go.Int32.{inc32}
use android_device_farm.Api.Device.{Device, DevicePhase}
use android_device_farm.Api.DevicePool.{PoolClass, ClassCounts}

abbrev pub no_counts : PoolClass → ClassCounts
no_counts c = record { class = c.name; total = 0; ready = 0; leased = 0; provisioning = 0 }

abbrev later_or : Option ℕ → Option ℕ → Option ℕ
later_or (some i) o = some i
later_or none o = o

-- `idx[class]`: of two entries with one name the later one stays in the map.
pub index_from : ℕ → String → List PoolClass → Option ℕ
index_from n class [] = none
index_from n class (c ∷ classes) =
    later_or (index_from (suc n) class classes) (if str_eq c.name class then some n else none)

-- The increments for one device.
abbrev pub tally : DevicePhase → ClassCounts → ClassCounts
tally DevicePhase.ready cc = record cc { total = inc32 cc.total; ready = inc32 cc.ready }
tally DevicePhase.leased cc = record cc { total = inc32 cc.total; leased = inc32 cc.leased }
tally _ cc = record cc { total = inc32 cc.total; provisioning = inc32 cc.provisioning }

-- `cc := &out[pos]` and the increments through it.
pub tally_at : ℕ → DevicePhase → List ClassCounts → List ClassCounts
tally_at n phase [] = []
tally_at zero phase (cc ∷ out) = tally phase cc ∷ out
tally_at (suc n) phase (cc ∷ out) = cc ∷ tally_at n phase out

pub tally_known : Option ℕ → DevicePhase → List ClassCounts → List ClassCounts
unfolding tally_at
tally_known none phase out = out
tally_known (some pos) phase out = tally_at pos phase out

pub counts_from : List PoolClass → List ClassCounts → List Device → List ClassCounts
unfolding tally_known index_from
counts_from classes out [] = out
counts_from classes out (d ∷ devices) =
    counts_from classes (tally_known (index_from 0 d.spec.class_ref classes) d.status.phase out)
      devices

unfoldable pub compute_counts : List PoolClass → List Device → List ClassCounts
unfolding counts_from
compute_counts classes devices = counts_from classes (map no_counts classes) devices
