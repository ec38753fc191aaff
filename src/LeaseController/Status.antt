-- ===== src/LeaseController/Status.antt =====
-- `writeStatus`, `ttlDuration` and `boolCondition` of devicelease_controller.go.
pub mod Order
use android_device_farm.Common.{◌*◌, ◌-◌, suc, String, Bool, true, false}
use android_device_farm.Common.Int.{ℤ, pos, negsuc}
use android_device_farm.Go.Int32.{signed32}
use android_device_farm.Go.Time.{Duration, second}
use android_device_farm.Api.Meta.{ConditionStatus, condition_true, condition_false}
use android_device_farm.Api.DeviceLease.{DeviceLease, LeasePhase, bound}
use android_device_farm.Kube.Effect.{Exec}
use android_device_farm.Kube.Client.{Env, Machinery}

abbrev pub bool_condition : Bool → ConditionStatus
bool_condition true = condition_true
bool_condition false = condition_false

abbrev pub is_bound : LeasePhase → Bool
is_bound bound = true
is_bound _ = false

-- `time.Duration(n) * time.Second`: an `int32` of seconds, which an `int64` of nanoseconds holds.
abbrev pub seconds : ℤ → Duration
seconds (pos n) = pos (n * second)
seconds (negsuc n) = negsuc (suc n * second - 1)

unfoldable pub ttl_duration : DeviceLease → Duration
ttl_duration lease = seconds (signed32 lease.spec.ttl_seconds)

module _ (m : Machinery) where
  -- The lease as `writeStatus` sends it.
  unfoldable pub with_status : DeviceLease → LeasePhase → String → String → DeviceLease
  with_status lease phase reason msg = record lease {
    status = record (lease.status) {
      phase = phase;
      conditions =
          (m.set_status_condition lease.status.conditions (record {
            condition_type = "Bound";
            status = bool_condition (is_bound phase);
            observed_generation = lease.metadata.generation;
            reason = reason;
            message = msg;
          })).0;
    };
  }

module _ {W : Type 0} (env : Env W) where
  unfoldable pub write_status : DeviceLease → LeasePhase → String → String → Exec W DeviceLease
  unfolding with_status
  write_status lease phase reason msg =
      env.update_lease_status (with_status env.machinery lease phase reason msg)
