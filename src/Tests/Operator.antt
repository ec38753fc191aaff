-- ===== src/Tests/Operator.antt =====
-- The set-up of the operator where the device controller cannot be registered, and a command line
-- that is refused.
use android_device_farm.Common.{◌≡◌, refl, some, [], str_eq, if◌then◌else◌}
use android_device_farm.Kube.Effect.{pure, raise, other}
use android_device_farm.Kube.Client.{Env}
use android_device_farm.Operator.{register, Manager, exited, status, main}
use android_device_farm.Operator.Options.{default_flags}
use android_device_farm.Operator.Steps.{Run, noting, planned, main-Run}
use android_device_farm.Api.DeviceLease.{LeasePhase}
use android_device_farm.Tests.Farm.{farm, phone, lease_in}
use android_device_farm.Common.{none}

abbrev server : Env Unit
server = farm (lease_in LeasePhase.pending none) [] phone

-- Every call succeeds but the registration of the device controller.
abbrev failing : Manager Unit Unit
failing (register r) = if str_eq r.name "device" then raise other else pure tt
failing c = pure tt

stopped :
    (main server failing default_flags tt).0
    ≡ exited "Failed to create controller" (some "device") other
unfolding main pure raise
stopped = refl

stopped_status : status (main server failing default_flags tt).0 ≡ 1
stopped_status = rw stopped refl

main-Run_example :
    let (exit, (_, story)) = main server (noting failing) default_flags (tt, []) in
    Run (planned server default_flags) story exit
main-Run_example = main-Run server failing default_flags tt
