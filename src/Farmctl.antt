-- ===== src/Farmctl.antt =====
-- client/main.go: the `farmctl` command, behind its flags, which the `flag` package has parsed.
pub mod Waiting
pub mod Startup
pub mod Beating
use android_device_farm.Common.{
  ℕ, ◌*◌, ◌-◌, ◌%◌, suc, String, Bool, true, Option, none, some, List, [], ◌∷◌, ◌++◌, ◌<>◌, not,
  str_eq, if◌then◌else◌,
}
use android_device_farm.Common.Int.{ℤ, pos, negsuc}
use android_device_farm.Go.Int32.{int32_mod}
use android_device_farm.Go.Time.{Time, second, minute}
use android_device_farm.Api.Meta.{ObjectMeta, ObjectKey, key_of, named}
use android_device_farm.Api.DeviceLease.{DeviceLease, LeasePhase}
use android_device_farm.Kube.Effect.{
  ApiError, Result, ok, err, panicked, Exec, pure, raise, optional, ◌>>=◌, ◌>>◌,
}
use android_device_farm.Kube.Client.{Env}

-- The flags, with `ttl` an `int` and `timeout` in nanoseconds.
pub record Flags : Type 0 where
  pub namespace : String
  pub name : String
  pub class : String
  pub requester : String
  pub ttl : ℤ
  pub wait : Bool
  pub timeout : ℕ

-- `os.Getenv("FARM_REQUESTER")` where it is set, else the host's name
unfoldable pub default_requester : String → String → String
default_requester variable host = if not (str_eq variable "") then variable else host

abbrev pub default_flags : String → Flags
default_flags requester = record {
  namespace = "default";
  name = "";
  class = "";
  requester = requester;
  ttl = pos 300;
  wait = true;
  timeout = 5 * minute;
}

-- How the command ends, with the lines that it printed to standard output: status 0; `fatal`,
-- status 1, with its message and the error behind it; `usage`, status 2; a Go panic.
pub data Exit : Type 0 where
  success : List String → Exit
  fatal : List String → String → Option ApiError → Exit
  usage : Exit
  crash : List String → Exit

abbrev pub status : Exit → ℕ
status (success lines) = 0
status (fatal lines message e) = 1
status usage = 2
status (crash lines) = 2

-- `int32(*ttl)`: the low 32 bits
abbrev pub int32_of : ℤ → ℕ
int32_of (pos n) = n % int32_mod
int32_of (negsuc n) = int32_mod - suc (n % int32_mod)

abbrev lease_name : ObjectMeta → String → ObjectMeta
lease_name m name =
    if not (str_eq name "") then record m { name = name } else record m { generate_name = "lease-" }

-- The literal of `acquire`.
unfoldable pub new_lease : Flags → DeviceLease
new_lease f = record {
  metadata = lease_name (named "" f.namespace []) f.name;
  spec = record {
    class_ref = f.class;
    pool_ref = "";
    requester = f.requester;
    ttl_seconds = int32_of f.ttl;
  };
  status = record {
    phase = LeasePhase.unset;
    device_ref = "";
    adb_endpoint = "";
    ui_endpoint = "";
    expires_at = none;
    last_heartbeat = none;
    conditions = [];
  };
}

abbrev pub qualified : DeviceLease → String
qualified lease = lease.metadata.namespace <> "/" <> lease.metadata.name

module _ {W : Type 0} where
  -- `if err != nil { fatal(message, err) }`, and the rest of the command.
  abbrev pub or_fatal :
      {A : Type 0} → List String → String → (A → W → Exit × W) → Result A × W → Exit × W
  or_fatal lines message rest (ok a, w) = rest a w
  or_fatal lines message rest (err e, w) = (fatal lines message (some e), w)
  or_fatal lines message rest (panicked, w) = (crash lines, w)

  -- One look of the waiting loop: `some` is `true`, nil; `none` is `false`, nil.
  abbrev pub bound_yet : DeviceLease → LeasePhase → Exec W (Option DeviceLease)
  bound_yet lease LeasePhase.bound = pure (some lease)
  bound_yet lease LeasePhase.failed = raise ApiError.other
  bound_yet lease _ = pure none

-- `wait.PollUntilContextTimeout`: interval, timeout, immediate, condition
abbrev pub Poll : Type 0 → Type 0
Poll W = ℕ → ℕ → Bool → Exec W (Option DeviceLease) → Exec W DeviceLease

abbrev pub beaten : DeviceLease → Time → DeviceLease
beaten lease now = record lease { status = record (lease.status) { last_heartbeat = some now } }

module _ {W : Type 0} (env : Env W) (poll : Poll W) where
  pub look : ObjectKey → Exec W (Option DeviceLease)
  look key = do lease ← env.get_lease key; bound_yet lease lease.status.phase

  wait_bound : Flags → List String → DeviceLease → W → Exit × W
  unfolding look
  wait_bound f lines created w =
      or_fatal lines "waiting for bind"
        (λ lease w'. (
          success (
              lines
              ++ ("bound: device=" <> lease.status.device_ref <> " adb="
                  <> lease.status.adb_endpoint)
                ∷ []),
          w',
        ))
        (poll second f.timeout true (look (key_of created.metadata)) w)

  unfoldable pub acquire : Flags → W → Exit × W
  unfolding wait_bound
  acquire f w =
      or_fatal [] "create lease"
        (λ created w'.
          let lines = ("created lease " <> qualified created) ∷ [] in
          if not f.wait then (success lines, w') else wait_bound f lines created w')
        (env.create_lease (new_lease f) w)

  send_heartbeat : DeviceLease → Exec W Time
  send_heartbeat lease = do now ← env.now; env.patch_lease_status lease (beaten lease now); pure now

  unfoldable pub heartbeat : Flags → W → Exit × W
  unfolding send_heartbeat
  heartbeat f w =
      or_fatal [] "get lease"
        (λ lease w'.
          or_fatal [] "heartbeat"
            (λ now w''. (
              success (
                  ("heartbeat " <> f.namespace <> "/" <> f.name <> " at " <> env.format_rfc3339 now)
                  ∷ []),
              w'',
            ))
            (send_heartbeat lease w'))
        (env.get_lease (record { namespace = f.namespace; name = f.name }) w)

  unfoldable pub release : Flags → W → Exit × W
  release f w =
      or_fatal [] "release"
        (λ _ w'. (success (("released " <> f.namespace <> "/" <> f.name) ∷ []), w'))
        (optional (env.delete_lease (record { namespace = f.namespace; name = f.name })) w)

  -- `mustClass` and `mustName`: an empty value is fatal.
  abbrev pub required : String → String → (W → Exit × W) → W → Exit × W
  required value message rest w = if str_eq value "" then (fatal [] message none, w) else rest w

  -- The switch of `main`.
  unfoldable pub run : String → Flags → W → Exit × W
  unfolding acquire heartbeat release
  run cmd f w =
      if str_eq cmd "acquire"
      then required f.class "--class is required" (acquire f) w
      else if str_eq cmd "heartbeat"
      then required f.name "--name is required" (heartbeat f) w
      else if str_eq cmd "release"
      then required f.name "--name is required" (release f) w
      else (usage, w)
