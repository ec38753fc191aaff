-- ===== src/Farmctl/Beating.antt =====
-- A heartbeat of `farmctl` and the lease controller that reads it.
use android_device_farm.Common.{◌≡◌, refl, false, List, [], ◌∷◌}
use android_device_farm.Go.Time.{Time, after, add_time}
use android_device_farm.Api.Meta.{ObjectKey}
use android_device_farm.Api.DeviceLease.{DeviceLease}
use android_device_farm.Kube.Effect.{Result, ok, err, panicked, pure, continue, ◌>>=◌}
use android_device_farm.Kube.Client.{Env}
use android_device_farm.Kube.Laws.{ReadsClock}
use android_device_farm.Kube.Trace.{
  Event, patched_lease, Traced, traced, silent, sending, silent_end,
}
use android_device_farm.LeaseController.Status.{ttl_duration}
use android_device_farm.LeaseController.Bound.Alive.{Beats}
use android_device_farm.LeaseController.Reconcile.{reconcile}
use android_device_farm.LeaseController.Reconcile.Alive.{IsLive, reconcile-fresh}
use android_device_farm.Farmctl.{Flags, Exit, Poll, or_fatal, beaten, send_heartbeat, heartbeat}

module _ {W : Type 0} where
  -- What comes after the patch is only the end of the command.
  patch_end-log :
      (log : List Event) (t : Time) (rest : Time → Exit) (r : Result DeviceLease × W)
      → (or_fatal [] "heartbeat"
          (λ now w. (rest now, w))
          (continue (λ _. pure t) (silent_end log r))).1.log
        ≡ log
  unfolding pure
  patch_end-log log t rest (ok l, w) = refl
  patch_end-log log t rest (err e, w) = refl
  patch_end-log log t rest (panicked, w) = refl

module _ {W V : Type 0} (env : Env W) (poll : Poll (Traced W)) (later : Env V) (f : Flags) where
  heartbeat-log :
      (w w' w'' : W) (lease : DeviceLease) (t : Time)
      → env.get_lease (record { namespace = f.namespace; name = f.name }) w ≡ (ok lease, w')
      → env.now w' ≡ (ok t, w'')
      → (heartbeat (traced env) poll f (record { world = w; log = [] })).1.log
        ≡ patched_lease (beaten lease t) ∷ []
  unfolding heartbeat send_heartbeat silent sending ◌>>=◌
  heartbeat-log w w' w'' lease t got clock =
      rw (got, clock) (patch_end-log (patched_lease (beaten lease t) ∷ []) t _ _)

  -- Where `heartbeat` reads its lease and the clock: it sends one patch, whether or not the server
  -- takes it, of that lease with the time that it read as the last heartbeat. Where that lease is Bound,
  -- has its finalizer and is not being deleted, and `Reconcile` of the lease controller reads it as it
  -- was patched, at a clock that stands not past that time plus the time to live: it only reads and
  -- writes the lease's status, whatever else the server answers, so the device stays with the lease.
  pub heartbeat-Beats :
      (w w' w'' : W) (lease : DeviceLease) (t now : Time) (key : ObjectKey) (v v' : V)
      → env.get_lease (record { namespace = f.namespace; name = f.name }) w ≡ (ok lease, w')
      → env.now w' ≡ (ok t, w'')
      → later.get_lease key v ≡ (ok (beaten lease t), v')
      → IsLive later (beaten lease t)
      → ReadsClock later now
      → after now (add_time t (ttl_duration lease)) ≡ false
      → ((heartbeat (traced env) poll f (record { world = w; log = [] })).1.log
          ≡ patched_lease (beaten lease t) ∷ [])
        × Beats (reconcile (traced later) key (record { world = v; log = [] })).1.log
  unfolding ttl_duration
  heartbeat-Beats w w' w'' lease t now key v v' got clock read live reads fresh = (
    heartbeat-log w w' w'' lease t got clock,
    reconcile-fresh later (beaten lease t) t now key v v' read live reads refl fresh,
  )
