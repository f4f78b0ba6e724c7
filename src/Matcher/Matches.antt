-- ===== src/Matcher/Matches.antt =====
-- What a PDR asks of a packet, as a description that evaluateCandidate (src/domain/matcher.cpp)
-- decides.
use upfpolicyengine.Common.{
  ℕ, ◌≤◌, ◌≡◌, ◌↔◌, refl, true, Option, none, some, arith, WhenSome, ◌==◌, ap, ◌∙◌, absent_or,
  present_and, nat_eq, nat_eq_iff, some_inj,
}
use upfpolicyengine.Types.{
  TransportProtocol, Interface_Eq, interface_eq_iff, TransportProtocol_Eq, protocol_eq_iff,
}
use upfpolicyengine.Address.{Inet, contains, contains_port, PortRange}
use upfpolicyengine.Packet.{Packet, TunnelMetadata}
use upfpolicyengine.Rules.{Pdr}
use upfpolicyengine.Matcher.{evaluate_candidate, ue_address, local_port, remote_port}

-- What a PDR asks, criterion by criterion; an absent one asks nothing.
pub record Matches (pdr : Pdr) (packet : Packet) : Type 0 where
  pub ingress : pdr.source_interface ≡ packet.ingress
  pub teid : WhenSome pdr.teid (λ v. (t : TunnelMetadata) × (packet.tunnel ≡ some t) × (t.teid ≡ v))
  pub prefix : contains pdr.ue_prefix (ue_address packet) ≡ true
  pub protocol : WhenSome pdr.protocol (λ v. v ≡ packet.protocol)
  pub local_ports :
      WhenSome pdr.local_ports (λ r. (r.first ≤ local_port packet) × (local_port packet ≤ r.last))
  pub remote_ports :
      WhenSome pdr.remote_ports
        (λ r. (r.first ≤ remote_port packet) × (remote_port packet ≤ r.last))
  pub qfi : WhenSome pdr.qfi (λ v. (t : TunnelMetadata) × (packet.tunnel ≡ some t) × (t.qfi ≡ v))

ports_iff :
    (o : Option PortRange) (port : ℕ)
    → (absent_or o (λ r. contains_port r port) ≡ true)
      ↔ WhenSome o (λ r. (r.first ≤ port) × (port ≤ r.last))
unfolding contains_port
ports_iff none port = (λ h. tt, λ h. refl)
ports_iff (some r) port = ground arith

tunnel_iff :
    (field : TunnelMetadata → ℕ) (o : Option ℕ) (tunnel : Option TunnelMetadata)
    → (absent_or o (λ v. present_and tunnel (λ t. nat_eq (field t) v)) ≡ true)
      ↔ WhenSome o (λ v. (t : TunnelMetadata) × (tunnel ≡ some t) × (field t ≡ v))
tunnel_iff field none tunnel = (λ h. tt, λ h. refl)
tunnel_iff field (some v) none = (λ h. cc, λ (t, same, e). cc same)
tunnel_iff field (some v) (some t) = (
  λ h. (t, refl, (nat_eq_iff (field t) v).0 h),
  λ (t', same, e). (nat_eq_iff (field t) v).1 (ap field (some_inj same) ∙ e),
)

protocol_iff :
    (o : Option TransportProtocol) (p : TransportProtocol)
    → (absent_or o (λ v. v == p) ≡ true) ↔ WhenSome o (λ v. v ≡ p)
protocol_iff none p = (λ h. tt, λ h. refl)
protocol_iff (some v) p = protocol_eq_iff v p

-- A candidate is matched exactly when the packet has what the PDR asks: the interface, the tunnel's
-- TEID and QFI, the UE's address in the prefix, the protocol, and both ports, where the UE's side is
-- the source of a packet from N3 and the destination of one from N6.
pub evaluate_candidate-Matches :
    (inet : Inet) (pdr : Pdr) (packet : Packet)
    → ((evaluate_candidate inet pdr packet).matched ≡ true) ↔ Matches pdr packet
unfolding evaluate_candidate
evaluate_candidate-Matches inet pdr packet =
    let teid = tunnel_iff (λ t. t.teid) pdr.teid packet.tunnel in
    let qfi = tunnel_iff (λ t. t.qfi) pdr.qfi packet.tunnel in
    let protocol = protocol_iff pdr.protocol packet.protocol in
    let on_local = ports_iff pdr.local_ports (local_port packet) in
    let on_remote = ports_iff pdr.remote_ports (remote_port packet) in
    let ingress = interface_eq_iff pdr.source_interface packet.ingress in
    (
      λ h. record {
        ingress = ingress.0 (ground (arith, h));
        teid = teid.0 (ground (arith, h));
        prefix = ground (arith, h);
        protocol = protocol.0 (ground (arith, h));
        local_ports = on_local.0 (ground (arith, h));
        remote_ports = on_remote.0 (ground (arith, h));
        qfi = qfi.0 (ground (arith, h));
      },
      λ m. ground (
        arith,
        ingress.1 m.ingress,
        teid.1 m.teid,
        m.prefix,
        protocol.1 m.protocol,
        on_local.1 m.local_ports,
        on_remote.1 m.remote_ports,
        qfi.1 m.qfi,
      ),
    )

-- The interface is the packet's.
pub matched-ingress :
    (inet : Inet) (pdr : Pdr) (packet : Packet)
    → (evaluate_candidate inet pdr packet).matched ≡ true
    → pdr.source_interface ≡ packet.ingress
unfolding evaluate_candidate
matched-ingress inet pdr packet h =
    (interface_eq_iff pdr.source_interface packet.ingress).0 (ground (arith, h))
