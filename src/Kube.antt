-- ===== src/Kube.antt =====
-- Kubernetes as the operator meets it. The objects carry the fields that the operator reads or
-- writes; the API server and the libraries between are a parameter, `Env`.
pub mod Objects
pub mod Effect
pub mod Client
pub mod Laws
pub mod Hoare
pub mod Trace
