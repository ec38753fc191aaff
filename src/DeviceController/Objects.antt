-- ===== src/DeviceController/Objects.antt =====
-- The names, labels and objects that device_controller.go builds for a device.
use android_device_farm.Common.{ℕ, String, true, Option, none, some, [], ◌∷◌, ◌<>◌}
use android_device_farm.Common.Int.{pos}
use android_device_farm.Go.Strconv.{itoa}
use android_device_farm.Api.Meta.{Labels, named}
use android_device_farm.Api.Device.{Device}
use android_device_farm.Api.DeviceClass.{DeviceClass, Probe, exec, ResourceRequirements}
use android_device_farm.Kube.Objects.{Container, Pod, PodPhase, Service, Job, node_port, from_int32}

abbrev pub adb_port : ℕ
adb_port = 5555

abbrev pub kvm_host_path : String
kvm_host_path = "/dev/kvm"

abbrev pub label_device : String
label_device = "farm.example.com/device"

abbrev pub adb_server_port : String
adb_server_port = "5037"

abbrev pub adb_client_image : String
adb_client_image = "devicefarmer/adb:latest"

abbrev pub adb_proxy_port : ℕ
adb_proxy_port = 5556

abbrev pub socat_image : String
socat_image = "alpine/socat:latest"

unfoldable pub adb_service_name : Device → String
adb_service_name d = d.metadata.name <> "-adb"

unfoldable pub emulator_pod_name : Device → String
emulator_pod_name d = d.metadata.name <> "-emulator"

unfoldable pub register_job_name : Device → String
register_job_name d = d.metadata.name <> "-register"

abbrev pub device_selector : Device → Labels
device_selector d = (label_device, d.metadata.name) ∷ []

-- The endpoint inside the cluster, `%s.%s.svc.cluster.local:%d`.
unfoldable pub adb_address : Device → String
unfolding adb_service_name
adb_address d =
    adb_service_name d
    <> "."
    <> d.metadata.namespace
    <> ".svc.cluster.local:"
    <> itoa (pos adb_port)

abbrev no_resources : ResourceRequirements
no_resources = record { requests = []; limits = [] }

unfoldable pub default_boot_completed_probe : Probe
default_boot_completed_probe = record {
  handler = exec ("sh" ∷ "-c" ∷ "adb shell getprop sys.boot_completed | grep -q 1" ∷ []);
  initial_delay_seconds = 30;
  period_seconds = 10;
  timeout_seconds = 5;
  success_threshold = 0;
  failure_threshold = 30;
  termination_grace_period_seconds = none;
}

abbrev probe_or_default : Option Probe → Probe
probe_or_default none = default_boot_completed_probe
probe_or_default (some p) = p

emulator_container : DeviceClass → Container
emulator_container dc = record {
  name = "emulator";
  image = dc.spec.image;
  image_pull_policy = "IfNotPresent";
  command = [];
  args = [];
  ports = record { name = "adb"; container_port = adb_port } ∷ [];
  readiness_probe = some (probe_or_default dc.spec.readiness_probe);
  resources = dc.spec.resources;
  privileged = some true;
  volume_mounts = record { name = "kvm"; mount_path = kvm_host_path } ∷ [];
}

proxy_container : Container
proxy_container = record {
  name = "adb-proxy";
  image = socat_image;
  image_pull_policy = "";
  command = [];
  args =
      ("tcp-listen:" <> itoa (pos adb_proxy_port) <> ",fork,reuseaddr")
      ∷ ("tcp:127.0.0.1:" <> itoa (pos adb_port))
      ∷ [];
  ports = record { name = "adb"; container_port = adb_proxy_port } ∷ [];
  readiness_probe = none;
  resources = no_resources;
  privileged = none;
  volume_mounts = [];
}

unfoldable pub build_pod : Device → DeviceClass → Pod
unfolding emulator_container proxy_container emulator_pod_name default_boot_completed_probe
build_pod device dc = record {
  metadata = named (emulator_pod_name device) device.metadata.namespace (device_selector device);
  spec = record {
    node_selector = dc.spec.node_selector;
    tolerations = dc.spec.tolerations;
    restart_policy = "";
    containers = emulator_container dc ∷ proxy_container ∷ [];
    volumes =
        record { name = "kvm"; host_path = kvm_host_path; host_path_type = "CharDevice" } ∷ [];
  };
  status = record { phase = PodPhase.unset; conditions = []; container_statuses = [] };
}

-- The literal of `ensureService`.
unfoldable pub build_service : Device → Service
unfolding adb_service_name
build_service device = record {
  metadata = named (adb_service_name device) device.metadata.namespace (device_selector device);
  spec = record {
    service_type = node_port;
    selector = device_selector device;
    ports = record { name = "adb"; port = adb_port; target_port = from_int32 adb_proxy_port } ∷ [];
  };
}

register_container : String → String → Container
register_container adb_host adb_endpoint = record {
  name = "register";
  image = adb_client_image;
  image_pull_policy = "";
  command = "adb" ∷ "-H" ∷ adb_host ∷ "-P" ∷ adb_server_port ∷ "connect" ∷ adb_endpoint ∷ [];
  args = [];
  ports = [];
  readiness_probe = none;
  resources = no_resources;
  privileged = none;
  volume_mounts = [];
}

-- The literal of `ensureRegistration`.
unfoldable pub build_register_job : Device → String → String → Job
unfolding register_container register_job_name
build_register_job device adb_host adb_endpoint = record {
  metadata = named (register_job_name device) device.metadata.namespace (device_selector device);
  backoff_limit = 5;
  restart_policy = "OnFailure";
  containers = register_container adb_host adb_endpoint ∷ [];
}
