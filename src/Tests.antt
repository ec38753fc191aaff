-- ===== src/Tests.antt =====
-- A small farm, and the theorems at it.
pub mod Library
pub mod Farm
pub mod Devices
pub mod Leases
pub mod Binding
pub mod Pools
pub mod Command
pub mod Lock
pub mod Writes
pub mod Operator
pub mod Recovery
pub mod Copies
