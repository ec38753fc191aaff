-- ===== src/DeviceController/Status/Stable.antt =====
-- `setPhase` settles.
use android_device_farm.Common.{
  ◌≡◌, refl, String, true, false, not, ◌&&◌, if◌then◌else◌, str_eq, eq_iff, arith,
}
use android_device_farm.Api.Device.{Device, DevicePhase, same_phase}
use android_device_farm.Kube.Client.{Machinery}
use android_device_farm.Kube.Laws.{SetsOnce}
use android_device_farm.DeviceController.Status.{with_phase, ready_status, new_endpoint}

same_phase_refl : (p : DevicePhase) → same_phase p p ≡ true
same_phase_refl p = ground arith

-- The endpoint that `setPhase` leaves is not a new one.
endpoint-settled :
    (device : Device) (adb : String)
    → not (str_eq adb "")
        && not (str_eq (if new_endpoint device adb then adb else device.status.adb_endpoint) adb)
      ≡ false
endpoint-settled device adb = ground (arith, eq_iff adb adb)

module _ (m : Machinery) (sets : SetsOnce m) (device : Device) (phase : DevicePhase)
    (adb reason msg : String) where
  -- Where `SetStatusCondition` changes nothing the second time, `setPhase` with the same
  -- arguments on the device that it left has nothing to change and nothing to write.
  pub with_phase-settled :
      let d = (with_phase m device phase adb reason msg).0 in
      with_phase m d phase adb reason msg ≡ (d, false)
  unfolding with_phase
  with_phase-settled =
      rw
        (
          sets device.status.conditions (record {
            condition_type = "Ready";
            status = ready_status phase;
            observed_generation = device.metadata.generation;
            reason = reason;
            message = msg;
          }),
          same_phase_refl phase,
          endpoint-settled device adb,
        )
        refl
