-- ===== src/LeaseController.antt =====
-- operator/internal/controller/devicelease_controller.go
pub mod Select
pub mod Status
pub mod Capacity
pub mod Release
pub mod Pending
pub mod Bound
pub mod Reconcile
pub mod Exclusive
pub mod Order
pub mod Lifecycle
