-- ===== src/PoolController.antt =====
-- operator/internal/controller/devicepool_controller.go
pub mod Provision
pub mod Counts
pub mod Warm
pub mod Reconcile
