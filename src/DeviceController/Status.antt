-- ===== src/DeviceController/Status.antt =====
-- `setPhase` of device_controller.go.
pub mod Stable
pub mod Binding
pub mod Owned
use android_device_farm.Common.{String, Bool, ◌&&◌, ◌||◌, not, str_eq, if◌then◌else◌}
use android_device_farm.Api.Meta.{ConditionStatus, condition_true, condition_false}
use android_device_farm.Api.Device.{Device, DevicePhase, same_phase, ready}
use android_device_farm.Kube.Effect.{Exec, pure, ◌>>◌, ReconcileResult, done}
use android_device_farm.Kube.Client.{Env, Machinery}

abbrev pub ready_status : DevicePhase → ConditionStatus
ready_status ready = condition_true
ready_status _ = condition_false

-- `adb != "" && device.Status.ADBEndpoint != adb`
abbrev pub new_endpoint : Device → String → Bool
new_endpoint device adb = not (str_eq adb "") && not (str_eq device.status.adb_endpoint adb)

module _ (m : Machinery) (device : Device) (phase : DevicePhase) (adb reason msg : String) where
  -- The device as `setPhase` leaves it in memory, and whether it changed.
  unfoldable pub with_phase : Device × Bool
  with_phase =
      let (conditions, condition_changed) =
        m.set_status_condition device.status.conditions (record {
          condition_type = "Ready";
          status = ready_status phase;
          observed_generation = device.metadata.generation;
          reason = reason;
          message = msg;
        }) in
      (
        record device {
          status = record (device.status) {
            phase = phase;
            adb_endpoint = if new_endpoint device adb then adb else device.status.adb_endpoint;
            conditions = conditions;
          };
        },
        not (same_phase device.status.phase phase) || new_endpoint device adb || condition_changed,
      )

module _ {W : Type 0} (env : Env W) where
  write_if_changed : Device × Bool → Exec W ReconcileResult
  write_if_changed (device, changed) =
      if changed then (do env.update_device_status device; pure done) else pure done

  unfoldable pub set_phase :
      Device → DevicePhase → String → String → String → Exec W ReconcileResult
  unfolding with_phase write_if_changed
  set_phase device phase adb reason msg =
      write_if_changed (with_phase env.machinery device phase adb reason msg)
