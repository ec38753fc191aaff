-- ===== src/Kube/Trace.antt =====
-- An environment that keeps a log of what is read and sent, over any environment. A theorem about
-- the log of a call of `traced env` holds whatever the API server answers, and whatever others do
-- to the cluster between two calls.
mod Events
mod Rules
unfoldable pub use Events.*
pub use Rules.*
