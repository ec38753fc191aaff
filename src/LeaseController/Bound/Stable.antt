-- ===== src/LeaseController/Bound/Stable.antt =====
-- The status that a heartbeat leads to settles.
use android_device_farm.Common.{◌≡◌, refl, false, not, ◌==◌, arith}
use android_device_farm.Go.Time.{Time}
use android_device_farm.Api.DeviceLease.{DeviceLease}
use android_device_farm.Kube.Client.{Machinery}
use android_device_farm.Kube.Laws.{SetsOnce}
use android_device_farm.LeaseController.Status.{bool_condition}
use android_device_farm.LeaseController.Bound.{refreshed, Health}

same_time : (t : Time) → not (t == t) ≡ false
same_time t = ground arith

-- Where `SetStatusCondition` changes nothing the second time, a lease that was refreshed has
-- nothing to write when it is refreshed again with the same health and the same expiry.
pub refreshed-settled :
    (m : Machinery) (sets : SetsOnce m) (lease : DeviceLease) (health : Health) (expires : Time)
    → let l = (refreshed m lease health expires).0 in refreshed m l health expires ≡ (l, false)
unfolding refreshed
refreshed-settled m sets lease (healthy, reason, msg) expires =
    rw
      (
        sets lease.status.conditions (record {
          condition_type = "DeviceHealthy";
          status = bool_condition healthy;
          observed_generation = lease.metadata.generation;
          reason = reason;
          message = msg;
        }),
        same_time expires,
      )
      refl
