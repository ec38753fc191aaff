-- ===== src/DeviceController.antt =====
-- operator/internal/controller/device_controller.go
pub mod Phase
pub mod Backoff
pub mod Objects
pub mod Annotations
pub mod Ensure
pub mod Status
pub mod Recovery
pub mod Reconcile
pub mod Bindings
pub mod Owned
