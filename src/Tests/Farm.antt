-- ===== src/Tests/Farm.antt =====
-- The objects of a small farm, and an API server that holds them.
use android_device_farm.Common.{ℕ, ◌*◌, String, Option, none, some, List, [], ◌∷◌}
use android_device_farm.Go.Time.{Time, second}
use android_device_farm.Api.Meta.{named, Labels, ObjectKey, ObjectMeta}
use android_device_farm.Api.Device.{Device, DevicePhase, emulator, ready}
use android_device_farm.Api.DeviceClass.{DeviceClass}
use android_device_farm.Api.DevicePool.{DevicePool, PoolClass, lru_idle}
use android_device_farm.Api.DeviceLease.{DeviceLease, LeasePhase}
use android_device_farm.Kube.Effect.{pure, raise, not_found}
use android_device_farm.Kube.Client.{Env}
use android_device_farm.Kube.Laws.{
  GetsByName, GetsPoolByKey, KeepsKeys, StoresStatus, StoresAnnotations,
}
use android_device_farm.DeviceController.Objects.{build_service}
use android_device_farm.Tests.Library.{machinery}

abbrev pub device_with : String → String → DevicePhase → String → Option Time → Labels → Device
device_with name class phase lease used annotations = record {
  metadata = record (named name "default" []) { annotations = annotations };
  spec = record {
    class_ref = class;
    pool_ref = "pool";
    provider_type = emulator;
    adb_endpoint = "";
    node_name = "";
    serial = "";
  };
  status = record {
    phase = phase;
    adb_endpoint = "10.0.0.1:30000";
    ui_endpoint = "";
    lease_ref = lease;
    last_used_time = used;
    conditions = [];
  };
}

abbrev pub tablet : Device
tablet = device_with "tablet-1" "tablet" ready "" (some (50 * second)) []

abbrev pub phone : Device
phone = device_with "phone-1" "phone" ready "" none []

abbrev pub dc : DeviceClass
dc = record {
  metadata = named "phone" "" [];
  spec = record {
    provider_type = emulator;
    image = "emulator:34";
    api_level = 34;
    arch = "x86_64";
    avd = none;
    resources = record { requests = []; limits = [] };
    readiness_probe = none;
    node_selector = [];
    tolerations = [];
  };
  conditions = [];
}

abbrev pub class_of : String → ℕ → PoolClass
class_of name min_warm = record { name = name; min_warm = min_warm; max_warm = 4 }

abbrev pub pool : DevicePool
pool = record {
  metadata = named "pool" "default" [];
  spec = record {
    classes = class_of "phone" 1 ∷ class_of "tablet" 1 ∷ [];
    max_concurrent = 1;
    eviction_policy = lru_idle;
    stf_ref = none;
  };
  status = record { per_class = []; conditions = [] };
}

abbrev pub lease_in : LeasePhase → Option Time → DeviceLease
lease_in phase heartbeat = record {
  metadata = record (named "ci-7" "default" []) {
    finalizers = "farm.example.com/lease-cleanup" ∷ [];
  };
  spec = record { class_ref = "phone"; pool_ref = ""; requester = "ci"; ttl_seconds = 300 };
  status = record {
    phase = phase;
    device_ref = "";
    adb_endpoint = "";
    ui_endpoint = "";
    expires_at = none;
    last_heartbeat = heartbeat;
    conditions = [];
  };
}

abbrev pub clock : Time
clock = 100 * second

abbrev at_key : ObjectKey → ObjectMeta → ObjectMeta
at_key key m = record m { namespace = key.namespace; name = key.name }

-- A server that holds a lease, a list of devices and the class and the pool, and takes every write.
module _ (lease : DeviceLease) (devices : List Device) (device : Device) where
  abbrev pub farm : Env Unit
  farm = record {
    client = record {
      get_device = λ key. pure (record device { metadata = at_key key device.metadata });
      list_devices = λ o. pure devices;
      create_device = λ d. pure d;
      update_device = λ d. pure d;
      update_device_status = λ d. pure d;
      delete_device = λ d. pure tt;
      get_device_class = λ key. pure dc;
      get_pool = λ key. pure (record pool { metadata = at_key key pool.metadata });
      list_pools = λ o. pure (pool ∷ []);
      update_pool_status = λ p. pure p;
      get_lease =
          λ key. pure (record lease { metadata = record (lease.metadata) { name = key.name } });
      list_leases = λ o. pure (lease ∷ []);
      create_lease = λ l. pure l;
      update_lease = λ l. pure l;
      update_lease_status = λ l. pure l;
      patch_lease_status = λ base l. pure l;
      delete_lease = λ key. pure tt;
      get_pod = λ key. raise not_found;
      create_pod = λ p. pure p;
      delete_pod = λ key. pure tt;
      get_service = λ key.
          let s = build_service device in pure (record s { metadata = at_key key s.metadata });
      create_service = λ s. pure s;
      update_service = λ s. pure s;
      get_job = λ key. raise not_found;
      create_job = λ j. pure j;
      now = pure clock;
    };
    machinery = machinery;
  }

  pub gets_by_name : GetsByName farm
  unfolding pure
  gets_by_name key w l e = cc

  pub gets_pool_by_key : GetsPoolByKey farm
  unfolding pure
  gets_pool_by_key key w p e = cc

  pub keeps_keys : KeepsKeys farm
  unfolding pure raise
  keeps_keys = record {
    gets_device = λ key w d e. cc;
    updates_device = λ d w u e. cc;
    gets_pod = λ key w p e. cc;
    creates_pod = λ p w q e. cc;
    gets_service = λ key w s e. cc;
    owns = λ kind owner m1 m2 e. cc;
  }

  pub stores_status : StoresStatus farm
  unfolding pure
  stores_status d w u e = cc

  pub stores_annotations : StoresAnnotations farm
  unfolding pure
  stores_annotations d w u e = cc
