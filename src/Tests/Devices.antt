-- ===== src/Tests/Devices.antt =====
-- The device controller on the small farm.
use android_device_farm.Common.{
  ℕ, ◌↔◌, ◌≢◌, In, eq_iff, ◌+◌, ◌*◌, ◌/◌, ◌≤◌, ◌≡◌, refl, true, false, none, [], ◌∷◌, arith,
}
use android_device_farm.Common.Int.{pos}
use android_device_farm.Go.Time.{second, zero_time}
use android_device_farm.Api.Meta.{ObjectKey, Labels, key_of, condition_true}
use android_device_farm.Api.Device.{Device, DevicePhase, provisioning, failed}
use android_device_farm.Kube.Objects.{Pod, PodPhase, pod_ready, Service, ServiceType, from_int32}
use android_device_farm.Kube.Effect.{ok, pure}
use android_device_farm.Kube.Trace.{traced, deleted_pod}
use android_device_farm.DeviceController.Bindings.{Preserved}
use android_device_farm.DeviceController.Reconcile.{reconcile}
use android_device_farm.DeviceController.Reconcile.Bindings.{reconcile-Preserved}
use android_device_farm.DeviceController.Recovery.{recover_failed}
use android_device_farm.DeviceController.Recovery.Waiting.{recover_failed-deletes, retry}
use android_device_farm.DeviceController.Annotations.{
  ann_int, ann_time, ann_failures, ann_next_retry, ann_booted, is_booted, record_failure,
  healthy_annotations, healthy_changes,
}
use android_device_farm.DeviceController.Annotations.Laws.{
  record_failure-read, healthy_annotations-settled,
}
use android_device_farm.DeviceController.Backoff.{
  backoff_duration, ideal_backoff, backoff_duration-eq_ideal, backoff_duration-bounds,
  recreate_backoff_base, recreate_backoff_max,
}
use android_device_farm.DeviceController.Ensure.{fix_service}
use android_device_farm.DeviceController.Ensure.Repair.{Fits, fix_service-Fits}
use android_device_farm.DeviceController.Objects.{build_pod, build_service, emulator_pod_name}
use android_device_farm.DeviceController.Phase.{compute_phase}
use android_device_farm.DeviceController.Phase.Outcome.{PhaseOf, compute_phase-PhaseOf}
use android_device_farm.DeviceController.Status.{with_phase}
use android_device_farm.DeviceController.Status.Stable.{with_phase-settled}
use android_device_farm.Tests.Library.{machinery, sets_once, keeps_seconds}
use android_device_farm.Tests.Farm.{farm, phone, dc, lease_in, clock, device_with}
use android_device_farm.Api.DeviceLease.{LeasePhase}
use android_device_farm.Kube.Client.{Env}

abbrev server : Device → Env Unit
server device = farm (lease_in LeasePhase.pending none) [] device

abbrev booted : Device
booted = device_with "phone-1" "phone" DevicePhase.ready "ci-7" none ((ann_booted, "true") ∷ [])

abbrev retried : Labels
retried = (ann_failures, "2") ∷ (ann_next_retry, "130") ∷ []

abbrev due : Labels
due = (ann_failures, "2") ∷ (ann_next_retry, "70") ∷ []

abbrev broken : Labels → Device
broken annotations = device_with "phone-1" "phone" failed "" none annotations

abbrev pod : Pod
pod = build_pod phone dc

abbrev key : ObjectKey
key = record { namespace = "default"; name = "phone-1" }

reconcile-Preserved_example :
    Preserved (reconcile (traced (server booted)) key (record { world = tt; log = [] })).1.log
reconcile-Preserved_example = reconcile-Preserved (server booted) key tt

clock_read : (server phone).now tt ≡ (ok clock, tt)
unfolding pure
clock_read = refl

named : pod.metadata.name ≢ ""
unfolding build_pod emulator_pod_name
named e = absurd (ground (arith, eq_iff "phone-1-emulator" "", e))

recover_failed-deletes_example :
    In
      (deleted_pod (key_of pod.metadata))
      (recover_failed
        (traced (server phone))
        (broken retried)
        pod
        (record { world = tt; log = [] })).1.log
    ↔ (retry (server phone) (broken retried) pod ≤ clock)
unfolding build_pod emulator_pod_name
recover_failed-deletes_example =
    recover_failed-deletes (server phone) (broken retried) pod tt tt clock named refl clock_read

record_failure-read_example :
    let b = record_failure machinery due (pos 2) clock (pos (40 * second)) in
    (ann_int b ann_failures ≡ pos 3)
    × (ann_time machinery b ann_next_retry ≡ (clock + 40 * second) / second * second)
    × (is_booted b ≡ false)
record_failure-read_example =
    record_failure-read machinery keeps_seconds due 2 (40 * second) clock (omega arith)
      (omega arith)

healthy_annotations-settled_example :
    let b = healthy_annotations due in
    (is_booted b ≡ true)
    × (ann_int b ann_failures ≡ pos 0)
    × (ann_time machinery b ann_next_retry ≡ zero_time)
    × (healthy_changes b ≡ false)
healthy_annotations-settled_example = healthy_annotations-settled machinery due

backoff_duration-eq_ideal_example : backoff_duration (pos 70) ≡ ok (pos (ideal_backoff 70))
backoff_duration-eq_ideal_example = backoff_duration-eq_ideal 70

backoff_duration-bounds_example :
    (d : ℕ) × (later : ℕ) × (backoff_duration (pos 4) ≡ ok (pos d))
    × (backoff_duration (pos 5) ≡ ok (pos later))
    × (recreate_backoff_base ≤ d)
    × (d ≤ later)
    × (later ≤ recreate_backoff_max)
backoff_duration-bounds_example = backoff_duration-bounds 4

abbrev ready_pod : Pod
ready_pod = record pod {
  status = record {
    phase = PodPhase.running;
    conditions = record { condition_type = pod_ready; status = condition_true } ∷ [];
    container_statuses = record { name = "emulator"; waiting = none; restart_count = 1 } ∷ [];
  };
}

compute_phase-PhaseOf_example : PhaseOf ready_pod.status false (compute_phase ready_pod false).0
compute_phase-PhaseOf_example = compute_phase-PhaseOf ready_pod false

with_phase-settled_example :
    let d = (with_phase machinery phone provisioning "10.0.0.2:5555" "Provisioning" "waiting").0 in
    with_phase machinery d provisioning "10.0.0.2:5555" "Provisioning" "waiting" ≡ (d, false)
with_phase-settled_example =
    with_phase-settled machinery sets_once phone provisioning "10.0.0.2:5555" "Provisioning"
      "waiting"

-- A Service as an older version left it.
abbrev drifted : Service
drifted =
    let svc = build_service phone in
    record svc {
      spec = record (svc.spec) {
        service_type = ServiceType.cluster_ip;
        ports = record { name = "adb"; port = 5555; target_port = from_int32 5555 } ∷ [];
      };
    }

fix_service-Fits_example :
    Fits (fix_service drifted).0
    × (((fix_service drifted).1 ≡ false) ↔ Fits drifted)
    × ((fix_service drifted).0.metadata ≡ drifted.metadata)
    × ((fix_service drifted).0.spec.selector ≡ drifted.spec.selector)
fix_service-Fits_example = fix_service-Fits drifted
