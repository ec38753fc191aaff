-- ===== src/Api/Memory/Copies.antt =====
-- zz_generated.deepcopy.go: `DeepCopyInto` and `DeepCopy` of each type. `DeepCopyObject` of a root
-- object hands on what `DeepCopy` does.
mod Devices
mod Classes
mod Pools
mod Leases
pub use Devices.*
pub use Classes.*
pub use Pools.*
pub use Leases.*
