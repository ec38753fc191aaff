-- ===== src/LeaseController/Bound/Alive.antt =====
-- A lease whose heartbeat is fresh.
use android_device_farm.Common.{◌≡◌, refl, true, false, List, [], some, All}
use android_device_farm.Go.Time.{Time, after, add_time}
use android_device_farm.Api.DeviceLease.{DeviceLease}
use android_device_farm.Kube.Client.{Env}
use android_device_farm.Kube.Laws.{ReadsClock}
use android_device_farm.Kube.Hoare.{
  Triple, Triple-bind, Triple-Keeps, Triple-pre, Triple-pure, Triple-given, Triple-end,
}
use android_device_farm.Kube.Trace.{Event, traced, OnLog, Closed, Triple-silent}
use android_device_farm.LeaseController.Status.{ttl_duration}
use android_device_farm.LeaseController.Bound.{beating, heartbeat_or_now, reconcile_bound}
use android_device_farm.LeaseController.Bound.Beats.{is_beat, keep_alive-Fair}

-- Only reads, and writes of the lease's status.
abbrev pub Beats : List Event → Type 0
Beats = All (λ e. is_beat e ≡ true)

Beats-closed : Closed is_beat Beats
Beats-closed e log h k = (h, k)

module _ {W : Type 0} (env : Env W) (lease : DeviceLease) (heartbeat now : Time) where
  heartbeat-Beats :
      lease.status.last_heartbeat ≡ some heartbeat
      → Triple
          (OnLog {W = W} Beats)
          (heartbeat_or_now (traced env) lease.status.last_heartbeat)
          (λ h s. OnLog Beats s × (h ≡ heartbeat))
          (OnLog Beats)
  unfolding heartbeat_or_now
  heartbeat-Beats e = rw e (Triple-pre (λ s h. (h, refl)) (Triple-pure heartbeat))

  fresh-Beats :
      ReadsClock env now
      → lease.status.last_heartbeat ≡ some heartbeat
      → after now (add_time heartbeat (ttl_duration lease)) ≡ false
      → Triple (OnLog Beats) (reconcile_bound (traced env) lease) (λ _. OnLog Beats) (OnLog Beats)
  unfolding reconcile_bound
  fresh-Beats clock e fresh = Triple-bind (heartbeat-Beats e) λ h. Triple-given λ beat.
      Triple-bind (Triple-silent Beats (λ t. t ≡ now) env.now clock) λ t. Triple-given λ time.
        Triple-Keeps (
          rw (beat, time, fresh)
            (keep_alive-Fair env Beats Beats-closed (beating lease heartbeat)
              (add_time heartbeat (ttl_duration lease))))

  -- Where the lease has a heartbeat and the clock stands, during the call, at a time that is not
  -- past that heartbeat plus the time to live: a reconcile of a bound lease, whatever the API
  -- server answers, only reads and writes the lease's status, so the device is not released and
  -- its pod not deleted.
  pub reconcile_bound-fresh :
      (w : W)
      → ReadsClock env now
      → lease.status.last_heartbeat ≡ some heartbeat
      → after now (add_time heartbeat (ttl_duration lease)) ≡ false
      → Beats (reconcile_bound (traced env) lease (record { world = w; log = [] })).1.log
  reconcile_bound-fresh w clock e fresh =
      (Triple-end (fresh-Beats clock e fresh) (record { world = w; log = [] })
        (record { logged = tt })).logged
