-- ===== src/Packet.antt =====
-- include/upf/domain/packet.hpp: tunnel metadata and packets.
use upfpolicyengine.Common.{ℕ, Bool, not, ◌&&◌, Option, leb, nat_eq}
use upfpolicyengine.Common.Text.{Text}
use upfpolicyengine.Types.{Interface, TransportProtocol}
use upfpolicyengine.Address.{IpAddress}

pub record TunnelMetadata : Type 0 where
  pub teid : ℕ
  pub qfi : ℕ

-- `TunnelMetadata::valid`
unfoldable pub is_valid_tunnel : TunnelMetadata → Bool
is_valid_tunnel t = not (nat_eq t.teid 0) && leb 1 t.qfi && leb t.qfi 63

pub record Packet : Type 0 where
  pub packet_id : Text
  pub session_id : Text
  pub ingress : Interface
  pub tunnel : Option TunnelMetadata
  pub source_ip : IpAddress
  pub destination_ip : IpAddress
  pub protocol : TransportProtocol
  pub source_port : ℕ
  pub destination_port : ℕ
  pub payload_bytes : ℕ
  pub arrival_time_micros : ℕ
