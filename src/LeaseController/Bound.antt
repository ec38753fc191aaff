-- ===== src/LeaseController/Bound.antt =====
-- `reconcileBound` and `deviceHealth` of devicelease_controller.go.
pub mod Beats
pub mod Alive
pub mod Stable
pub mod Expiry
pub mod Lifecycle
pub mod Order
use android_device_farm.Common.{
  String, Bool, true, false, ◌||◌, not, ◌==◌, Option, none, some, ◌<>◌, str_eq, if◌then◌else◌,
}
use android_device_farm.Go.Time.{Time, add_time, sub_time, after}
use android_device_farm.Api.Device.{Device, DevicePhase}
use android_device_farm.Api.DeviceLease.{DeviceLease, bound, expired}
use android_device_farm.Kube.Effect.{
  Exec, pure, tried, ◌>>=◌, ◌>>◌, ReconcileResult, done, after_duration,
}
use android_device_farm.Kube.Client.{Env, Machinery}
use android_device_farm.LeaseController.Status.{write_status, ttl_duration, bool_condition}
use android_device_farm.LeaseController.Release.{release_device}

abbrev pub Health : Type 0
Health = Bool × String × String

abbrev health_of_phase : DevicePhase → Health
health_of_phase DevicePhase.failed =
    (false, "DeviceFailed", "bound device is failed and being recovered")
health_of_phase _ = (true, "Healthy", "bound device is healthy")

abbrev health_of : String → Option Device → Health
health_of ref none = (false, "DeviceMissing", "bound device " <> ref <> " not found")
health_of ref (some dev) = health_of_phase dev.status.phase

-- `lease.Status.ExpiresAt == nil || !lease.Status.ExpiresAt.Equal(&et)`
abbrev expiry_changed : Option Time → Time → Bool
expiry_changed none et = true
expiry_changed (some t) et = not (t == et)

abbrev pub beating : DeviceLease → Time → DeviceLease
beating lease heartbeat = record lease {
  status = record (lease.status) { last_heartbeat = some heartbeat };
}

module _ (m : Machinery) where
  -- The lease before it is written, and `healthChanged || expiryChanged`.
  unfoldable pub refreshed : DeviceLease → Health → Time → DeviceLease × Bool
  refreshed lease (healthy, reason, msg) expires =
      let (conditions, health_changed) = m.set_status_condition lease.status.conditions (record {
        condition_type = "DeviceHealthy";
        status = bool_condition healthy;
        observed_generation = lease.metadata.generation;
        reason = reason;
        message = msg;
      }) in
      (
        record lease {
          status = record (lease.status) { conditions = conditions; expires_at = some expires };
        },
        health_changed || expiry_changed lease.status.expires_at expires,
      )

module _ {W : Type 0} (env : Env W) where
  unfoldable pub device_health : DeviceLease → Exec W Health
  device_health lease =
      if str_eq lease.status.device_ref "" then pure (false, "NoDevice", "no device bound") else do
        dev ← tried (
            env.get_device
              (record { namespace = lease.metadata.namespace; name = lease.status.device_ref }))
        pure (health_of lease.status.device_ref dev)

  pub heartbeat_or_now : Option Time → Exec W Time
  heartbeat_or_now none = env.now
  heartbeat_or_now (some t) = pure t

  expire : DeviceLease → Exec W ReconcileResult
  expire lease = do
    release_device env lease
    write_status env lease expired "TTLExpired" "lease expired without a heartbeat; device recycled"
    pure done

  write_if_changed : DeviceLease × Bool → Exec W Unit
  write_if_changed (lease, changed) =
      if changed
      then (do write_status env lease bound "Heartbeat" "lease active"; pure tt)
      else pure tt

  pub keep_alive : DeviceLease → Time → Exec W ReconcileResult
  unfolding refreshed write_if_changed device_health
  keep_alive lease expires = do
    health ← device_health lease
    write_if_changed (refreshed env.machinery lease health expires)
    now ← env.now
    pure (after_duration (sub_time expires now))

  unfoldable pub reconcile_bound : DeviceLease → Exec W ReconcileResult
  unfolding heartbeat_or_now expire keep_alive
  reconcile_bound lease = do
    heartbeat ← heartbeat_or_now lease.status.last_heartbeat
    now ← env.now
    let expires = add_time heartbeat (ttl_duration lease)
    if after now expires
        then expire (beating lease heartbeat)
        else keep_alive (beating lease heartbeat) expires
