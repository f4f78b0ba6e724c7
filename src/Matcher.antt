-- ===== src/Matcher.antt =====
-- src/domain/matcher.cpp: a PDR held against a packet, criterion by criterion.
pub mod Matches
use upfpolicyengine.Common.{
  ℕ, Bool, true, false, ◌&&◌, List, [], ◌∷◌, ◌==◌, nat_eq, if◌then◌else◌, has_value, absent_or,
  present_and,
}
use upfpolicyengine.Common.Text.{Text, text}
use upfpolicyengine.Types.{Interface, n3, n6, Interface_Eq, TransportProtocol_Eq}
use upfpolicyengine.Address.{Inet, IpAddress, contains, contains_port, to_string}
use upfpolicyengine.Packet.{Packet}
use upfpolicyengine.Rules.{Pdr}
use upfpolicyengine.Decision.{CriterionResult, MatchCandidate}

-- The UE's address, and the ports on its side and on the other.
abbrev pub ue_address : Packet → IpAddress
ue_address packet = if packet.ingress == n3 then packet.source_ip else packet.destination_ip

abbrev pub local_port : Packet → ℕ
local_port packet = if packet.ingress == n3 then packet.source_port else packet.destination_port

abbrev pub remote_port : Packet → ℕ
remote_port packet = if packet.ingress == n3 then packet.destination_port else packet.source_port

abbrev pub interface_text : Interface → Text
interface_text i = if i == n3 then text "N3" else text "N6"

-- `criterion`
abbrev pub criterion : Text → Bool → Bool → Text → Text → CriterionResult
criterion name applicable matched actual expected = record {
  name = name;
  applicable = applicable;
  matched = matched;
  actual = actual;
  expected = expected;
}

-- `evaluateCandidate`
unfoldable pub evaluate_candidate : Inet → Pdr → Packet → MatchCandidate
evaluate_candidate inet pdr packet =
    let ingress = pdr.source_interface == packet.ingress in
    let tunnel = absent_or pdr.teid λ teid. present_and packet.tunnel λ t. nat_eq t.teid teid in
    let ue = ue_address packet in
    let prefix = contains pdr.ue_prefix ue in
    let protocol = absent_or pdr.protocol λ p. p == packet.protocol in
    let local_match = absent_or pdr.local_ports λ r. contains_port r (local_port packet) in
    let remote_match = absent_or pdr.remote_ports λ r. contains_port r (remote_port packet) in
    let qfi = absent_or pdr.qfi λ q. present_and packet.tunnel λ t. nat_eq t.qfi q in
    record {
      pdr_id = pdr.id.value;
      precedence = pdr.precedence;
      matched = ingress && tunnel && prefix && protocol && local_match && remote_match && qfi;
      criteria =
          criterion (text "ingress") true ingress (interface_text packet.ingress)
            (interface_text pdr.source_interface)
          ∷ criterion (text "tunnel") (has_value pdr.teid) tunnel (text "semantic")
              (text "configured")
          ∷ criterion (text "prefix") true prefix (to_string inet ue) (text "UE prefix")
          ∷ criterion (text "protocol") (has_value pdr.protocol) protocol (text "packet")
              (text "configured")
          ∷ criterion (text "localPort") (has_value pdr.local_ports) local_match (text "packet")
              (text "range")
          ∷ criterion (text "remotePort") (has_value pdr.remote_ports) remote_match (text "packet")
              (text "range")
          ∷ criterion (text "qfi") (has_value pdr.qfi) qfi (text "packet") (text "configured")
          ∷ [];
    }
