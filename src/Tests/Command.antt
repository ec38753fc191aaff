-- ===== src/Tests/Command.antt =====
-- The command on the small farm.
use android_device_farm.Common.{◌≡◌, ◌≢◌, refl, false, Option, none, some, [], ◌∷◌}
use android_device_farm.Api.DeviceLease.{DeviceLease, bound}
use android_device_farm.Kube.Effect.{Result, ok, err, panicked, other, pure, raise}
use android_device_farm.Kube.Client.{Env}
use android_device_farm.Go.Time.{after, add_time}
use android_device_farm.Kube.Laws.{ReadsClock}
use android_device_farm.Kube.Trace.{Traced, traced, patched_lease}
use android_device_farm.LeaseController.Status.{ttl_duration}
use android_device_farm.LeaseController.Reconcile.{reconcile}
use android_device_farm.LeaseController.Reconcile.Alive.{IsLive}
use android_device_farm.Api.Meta.{ObjectKey}
use android_device_farm.LeaseController.Bound.Alive.{Beats}
use android_device_farm.Farmctl.Beating.{heartbeat-Beats}
use android_device_farm.Farmctl.{
  Flags, fatal, Poll, acquire, run, status, default_flags, heartbeat, beaten,
}
use android_device_farm.Farmctl.Waiting.{PollsTruly, ToldBound, acquire-ToldBound}
use android_device_farm.Farmctl.Startup.{Connector, parsed, main, run-rejects}
use android_device_farm.Tests.Farm.{farm, phone, lease_in, clock}

abbrev server : Env Unit
server = farm (lease_in bound (some clock)) [] phone

abbrev flags : Flags
flags = record (default_flags "ci") { name = "ci-7"; class = "phone" }

-- A poll that looks once.
abbrev first_look : {W : Type 0} → Result (Option DeviceLease) × W → Result DeviceLease × W
first_look (ok (some lease), w) = (ok lease, w)
first_look (ok none, w) = (err other, w)
first_look (err e, w) = (err e, w)
first_look (panicked, w) = (panicked, w)

abbrev look_once : Poll Unit
look_once interval timeout now condition w = first_look (condition w)

first_look-some :
    {W : Type 0} (r : Result (Option DeviceLease) × W) (lease : DeviceLease)
    → (first_look r).0 ≡ ok lease
    → r.0 ≡ ok (some lease)
first_look-some (ok (some l), w) lease e = cc
first_look-some (ok none, w) lease e = cc
first_look-some (err e', w) lease e = cc
first_look-some (panicked, w) lease e = cc

look_once-PollsTruly : PollsTruly look_once
look_once-PollsTruly interval timeout now condition w lease e =
    (w, first_look-some (condition w) lease e)

acquire-ToldBound_example : ToldBound server flags (acquire server look_once flags tt)
acquire-ToldBound_example = acquire-ToldBound server look_once look_once-PollsTruly flags tt refl

run-rejects_example :
    let (exit, w') = run server look_once "acquire" (default_flags "ci") tt in
    (w' ≡ tt) × (status exit ≢ 0)
run-rejects_example = run-rejects server look_once "acquire" (default_flags "ci") tt refl

-- A configuration that cannot be read ends the program before its command.
abbrev unconfigured : Connector Unit Unit
unconfigured = record {
  add_client_go_scheme = pure tt;
  add_farm_scheme = pure tt;
  get_config = raise other;
  new = λ cfg. pure server;
}

no_config :
    main unconfigured look_once (λ cmd f args. parsed f) "ci" ("farmctl" ∷ "release" ∷ []) tt
    ≡ (fatal [] "kubeconfig" (some other), tt)
unfolding main pure raise
no_config = refl

abbrev bound_lease : DeviceLease
bound_lease = lease_in bound (some clock)

abbrev never : Poll (Traced Unit)
never interval timeout now condition w = (err other, w)

lease_got :
    server.get_lease (record { namespace = flags.namespace; name = flags.name }) tt
    ≡ (ok bound_lease, tt)
unfolding pure
lease_got = refl

clock_read : server.now tt ≡ (ok clock, tt)
unfolding pure
clock_read = refl

in_time : after clock (add_time clock (ttl_duration bound_lease)) ≡ false
unfolding ttl_duration
in_time = refl

abbrev beaten_lease : DeviceLease
beaten_lease = beaten bound_lease clock

-- The server once it has taken the heartbeat.
abbrev later : Env Unit
later = farm beaten_lease [] phone

abbrev lease_key : ObjectKey
lease_key = record { namespace = "default"; name = "ci-7" }

beaten_got : later.get_lease lease_key tt ≡ (ok beaten_lease, tt)
unfolding pure
beaten_got = refl

beaten_lease-IsLive : IsLive later beaten_lease
beaten_lease-IsLive = record { phase = refl; kept = refl; finalizer = refl }

later_stands : ReadsClock later clock
unfolding pure
later_stands w t e = cc

heartbeat-Beats_example :
    ((heartbeat (traced server) never flags (record { world = tt; log = [] })).1.log
      ≡ patched_lease (beaten bound_lease clock) ∷ [])
    × Beats (reconcile (traced later) lease_key (record { world = tt; log = [] })).1.log
heartbeat-Beats_example =
    heartbeat-Beats server never later flags tt tt tt bound_lease clock clock lease_key tt tt
      lease_got clock_read beaten_got beaten_lease-IsLive later_stands in_time
