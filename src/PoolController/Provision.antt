-- ===== src/PoolController/Provision.antt =====
-- `newPoolDevice` of devicepool_controller.go, and `createDevice` and `provision`, which are alike.
use android_device_farm.Common.{String, none, [], ◌∷◌, ◌<>◌}
use android_device_farm.Api.Meta.{named}
use android_device_farm.Api.Device.{Device, DevicePhase}
use android_device_farm.Api.DeviceClass.{DeviceClass}
use android_device_farm.Api.DevicePool.{DevicePool}
use android_device_farm.Kube.Effect.{Exec, pure, lift, ◌>>=◌, ◌>>◌}
use android_device_farm.Kube.Client.{Env}

abbrev pub label_pool : String
label_pool = "farm.example.com/pool"

abbrev pub label_class : String
label_class = "farm.example.com/class"

unfoldable pub new_pool_device : DevicePool → DeviceClass → Device
new_pool_device pool dc = record {
  metadata =
      record (named "" pool.metadata.namespace
        ((label_pool, pool.metadata.name) ∷ (label_class, dc.metadata.name) ∷ [])) {
          generate_name = pool.metadata.name <> "-" <> dc.metadata.name <> "-";
        };
  spec = record {
    class_ref = dc.metadata.name;
    pool_ref = pool.metadata.name;
    provider_type = dc.spec.provider_type;
    adb_endpoint = "";
    node_name = "";
    serial = "";
  };
  status = record {
    phase = DevicePhase.unset;
    adb_endpoint = "";
    ui_endpoint = "";
    lease_ref = "";
    last_used_time = none;
    conditions = [];
  };
}

module _ {W : Type 0} (env : Env W) where
  unfoldable pub create_device : DevicePool → DeviceClass → Exec W Unit
  unfolding new_pool_device
  create_device pool dc = do
    let dev = new_pool_device pool dc
    owned ← lift (env.set_controller_reference "DevicePool" pool.metadata dev.metadata)
    env.create_device (record dev { metadata = owned })
    pure tt
