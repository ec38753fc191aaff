-- ===== src/Kube/Hoare.antt =====
-- Rules for calls: `Keeps` for an invariant of the world, and `Triple` where more is known before
-- the call, or of its result; `Returns` for the value of a call that succeeds.
mod Invariant
mod Conditions
mod Results
pub use Invariant.*
pub use Conditions.*
pub use Results.*
