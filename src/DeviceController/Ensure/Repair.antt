-- ===== src/DeviceController/Ensure/Repair.antt =====
-- The drift repair of `ensureService`.
use android_device_farm.Common.{
  ◌≡◌, ◌↔◌, refl, ap, true, false, not, ◌||◌, List, [], ◌∷◌, Bool-cases, inl, inr, ==_iff,
}
use android_device_farm.Kube.Objects.{
  Service, ServicePort, ServiceType, node_port, IntOrString, from_int32,
}
use android_device_farm.DeviceController.Objects.{adb_proxy_port}
use android_device_farm.DeviceController.Ensure.{
  fix_service, fix_ports, is_node_port, is_proxy_port,
}

-- A service with one port leads to the proxy.
abbrev pub PortsFit : List ServicePort → Type 0
PortsFit (p ∷ []) = p.target_port ≡ from_int32 adb_proxy_port
PortsFit ports = Unit

-- The host reaches the emulator through the service.
abbrev pub Fits : Service → Type 0
Fits s = (s.spec.service_type ≡ node_port) × PortsFit s.spec.ports

is_proxy_port_sound : (t : IntOrString) → is_proxy_port t ≡ true → t ≡ from_int32 adb_proxy_port
is_proxy_port_sound (from_int32 n) h = ap from_int32 ((==_iff n adb_proxy_port).0 h)
is_proxy_port_sound (IntOrString.from_string s) h = cc

is_node_port_sound : (t : ServiceType) → is_node_port t ≡ true → t ≡ node_port
is_node_port_sound node_port h = refl
is_node_port_sound ServiceType.unset h = cc
is_node_port_sound ServiceType.cluster_ip h = cc
is_node_port_sound ServiceType.load_balancer h = cc
is_node_port_sound ServiceType.external_name h = cc

is_node_port_complete : (t : ServiceType) → t ≡ node_port → is_node_port t ≡ true
is_node_port_complete t e = rw e refl

is_proxy_port_complete : (t : IntOrString) → t ≡ from_int32 adb_proxy_port → is_proxy_port t ≡ true
is_proxy_port_complete t e = rw e refl

fix_ports-PortsFit : (ports : List ServicePort) → PortsFit (fix_ports ports).0
fix_ports-PortsFit [] = tt
fix_ports-PortsFit (p ∷ []) = elim (Bool-cases (is_proxy_port p.target_port)) [
  | inl proxy ↦ rw proxy (is_proxy_port_sound p.target_port proxy)
  | inr drifted ↦ rw drifted refl
]
fix_ports-PortsFit (p ∷ q ∷ ports) = tt

fix_ports-kept : (ports : List ServicePort) → ((fix_ports ports).1 ≡ false) ↔ PortsFit ports
fix_ports-kept [] = (λ e. tt, λ h. refl)
fix_ports-kept (p ∷ []) = elim (Bool-cases (is_proxy_port p.target_port)) [
  | inl proxy ↦ rw proxy (λ e. is_proxy_port_sound p.target_port proxy, λ h. refl)
  | inr drifted ↦ rw drifted (λ e. cc e, λ h. cc (drifted, is_proxy_port_complete p.target_port h))
]
fix_ports-kept (p ∷ q ∷ ports) = (λ e. tt, λ h. refl)

kept-Fits :
    (t : ServiceType) (ports : List ServicePort)
    → ((not (is_node_port t) || (fix_ports ports).1) ≡ false) ↔ ((t ≡ node_port) × PortsFit ports)
kept-Fits t ports = elim (Bool-cases (is_node_port t)) [
  | inl fits ↦ rw fits (
    λ e. (is_node_port_sound t fits, (fix_ports-kept ports).0 e),
    λ h. (fix_ports-kept ports).1 h.1,
  )
  | inr drifted ↦ rw drifted (λ e. cc e, λ h. cc (drifted, is_node_port_complete t h.0))
]

-- The drift repair leaves a Service of type NodePort, whose port, where it has a single one, leads to
-- the proxy, and keeps its metadata and its selector; it reports no change exactly if the Service was
-- so already.
pub fix_service-Fits :
    (s : Service)
    → Fits (fix_service s).0
      × (((fix_service s).1 ≡ false) ↔ Fits s)
      × ((fix_service s).0.metadata ≡ s.metadata)
      × ((fix_service s).0.spec.selector ≡ s.spec.selector)
unfolding fix_service
fix_service-Fits s = (
  (refl, fix_ports-PortsFit s.spec.ports),
  kept-Fits s.spec.service_type s.spec.ports,
  refl,
  refl,
)
