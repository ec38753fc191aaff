-- ===== src/LeaseController/Status/Order.antt =====
-- `writeStatus` writes a lease: the last stage.
use android_device_farm.Common.{refl, ℕ, ◌≤◌, String}
use android_device_farm.Api.DeviceLease.{DeviceLease, LeasePhase}
use android_device_farm.Kube.Client.{Env}
use android_device_farm.Kube.Trace.{traced}
use android_device_farm.LeaseController.Order.{Advances, Advances-sending}
use android_device_farm.LeaseController.Status.{write_status}

module _ {W : Type 0} (env : Env W) (lease : DeviceLease) where
  pub write_status-Advances :
      (n : ℕ)
      → n ≤ 3
      → (p : LeasePhase) (reason msg : String)
      → Advances n 4 (write_status (traced env) lease p reason msg)
  unfolding write_status
  write_status-Advances n le p reason msg = Advances-sending n 3 _ _ refl le
