-- ===== src/Kube/Trace/Events.antt =====
-- What is logged, and the environment that logs it.
use android_device_farm.Common.{Bool, true, false, inr, List, [], ◌∷◌, In, ◌⊎◌}
use android_device_farm.Api.Meta.{ObjectKey}
use android_device_farm.Api.Device.{Device}
use android_device_farm.Api.DevicePool.{DevicePool}
use android_device_farm.Api.DeviceLease.{DeviceLease}
use android_device_farm.Kube.Objects.{Pod, Service, Job}
use android_device_farm.Kube.Effect.{Result, ok, err, panicked, Exec}
use android_device_farm.Kube.Client.{Env}

pub data Event : Type 0 where
  saw_devices : List Device → Event
  sent_device_status sent_device created_device deleted_device : Device → Event
  sent_lease_status sent_lease created_lease patched_lease : DeviceLease → Event
  deleted_lease : ObjectKey → Event
  sent_pool_status : DevicePool → Event
  created_pod : Pod → Event
  deleted_pod : ObjectKey → Event
  created_service sent_service : Service → Event
  created_job : Job → Event

-- The log has the latest event first.
pub record Traced (W : Type 0) : Type 0 where
  pub world : W
  pub log : List Event

module _ {W A : Type 0} where
  abbrev pub silent_end : List Event → Result A × W → Result A × Traced W
  silent_end log (r, w) = (r, record { world = w; log = log })

  -- A read that is not logged.
  unfoldable pub silent : Exec W A → Exec (Traced W) A
  silent m s = silent_end s.log (m s.world)

  -- A write, logged as it is sent.
  unfoldable pub sending : Event → Exec W A → Exec (Traced W) A
  sending e m s = silent_end (e ∷ s.log) (m s.world)

  abbrev pub seen_end : (A → List Device) → List Event → Result A × W → Result A × Traced W
  seen_end f log (ok a, w) = (ok a, record { world = w; log = saw_devices (f a) ∷ log })
  seen_end f log (err e, w) = (err e, record { world = w; log = log })
  seen_end f log (panicked, w) = (panicked, record { world = w; log = log })

  -- A call that hands devices back.
  unfoldable pub seeing : (A → List Device) → Exec W A → Exec (Traced W) A
  seeing f m s = seen_end f s.log (m s.world)

  unfoldable pub sending_seeing : Event → (A → List Device) → Exec W A → Exec (Traced W) A
  sending_seeing e f m s = seen_end f (e ∷ s.log) (m s.world)

abbrev one : Device → List Device
one d = d ∷ []

module _ {W : Type 0} (env : Env W) where
  abbrev pub traced : Env (Traced W)
  traced = record {
    client = record {
      get_device = λ k. seeing one (env.get_device k);
      list_devices = λ o. seeing (λ ds. ds) (env.list_devices o);
      create_device = λ d. sending (created_device d) (env.create_device d);
      update_device = λ d. sending_seeing (sent_device d) one (env.update_device d);
      update_device_status =
          λ d. sending_seeing (sent_device_status d) one (env.update_device_status d);
      delete_device = λ d. sending (deleted_device d) (env.delete_device d);
      get_device_class = λ k. silent (env.get_device_class k);
      get_pool = λ k. silent (env.get_pool k);
      list_pools = λ o. silent (env.list_pools o);
      update_pool_status = λ p. sending (sent_pool_status p) (env.update_pool_status p);
      get_lease = λ k. silent (env.get_lease k);
      list_leases = λ o. silent (env.list_leases o);
      create_lease = λ l. sending (created_lease l) (env.create_lease l);
      update_lease = λ l. sending (sent_lease l) (env.update_lease l);
      update_lease_status = λ l. sending (sent_lease_status l) (env.update_lease_status l);
      patch_lease_status = λ b l. sending (patched_lease l) (env.patch_lease_status b l);
      delete_lease = λ k. sending (deleted_lease k) (env.delete_lease k);
      get_pod = λ k. silent (env.get_pod k);
      create_pod = λ p. sending (created_pod p) (env.create_pod p);
      delete_pod = λ k. sending (deleted_pod k) (env.delete_pod k);
      get_service = λ k. silent (env.get_service k);
      create_service = λ s. sending (created_service s) (env.create_service s);
      update_service = λ s. sending (sent_service s) (env.update_service s);
      get_job = λ k. silent (env.get_job k);
      create_job = λ j. sending (created_job j) (env.create_job j);
      now = silent env.now;
    };
    machinery = env.machinery;
  }

-- The device was handed to the program before.
abbrev pub Seen : Device → List Event → Type 0
Seen d [] = ⊥
Seen d (saw_devices ds ∷ log) = In d ds ⊎ Seen d log
Seen d (e ∷ log) = Seen d log

pub Seen-later : (d : Device) (e : Event) (log : List Event) → Seen d log → Seen d (e ∷ log)
Seen-later d (saw_devices ds) log h = inr h
Seen-later d (sent_device_status d') log h = h
Seen-later d (sent_device d') log h = h
Seen-later d (created_device d') log h = h
Seen-later d (deleted_device d') log h = h
Seen-later d (sent_lease_status l) log h = h
Seen-later d (sent_lease l) log h = h
Seen-later d (created_lease l) log h = h
Seen-later d (patched_lease l) log h = h
Seen-later d (deleted_lease l) log h = h
Seen-later d (sent_pool_status p) log h = h
Seen-later d (created_pod p) log h = h
Seen-later d (deleted_pod p) log h = h
Seen-later d (created_service s) log h = h
Seen-later d (sent_service s) log h = h
Seen-later d (created_job j) log h = h

-- Not the write of a device's status.
abbrev pub is_quiet : Event → Bool
is_quiet (sent_device_status d) = false
is_quiet _ = true
