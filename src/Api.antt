-- ===== src/Api.antt =====
-- The custom resources of operator/api/v1alpha1.
pub mod Meta
pub mod Device
pub mod DeviceClass
pub mod DevicePool
pub mod DeviceLease
pub mod Memory
