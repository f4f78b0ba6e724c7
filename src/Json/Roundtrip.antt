-- ===== src/Json/Roundtrip.antt =====
-- What `packetJson` writes is what `parsePackets` reads.
use native.Mathlib.Nat.{mod-eq_of_lt}
use upfpolicyengine.Common.{ℕ, ◌<◌, ◌≡◌, refl, ap, Option, none, some, List, [], ◌∷◌, push_back}
use upfpolicyengine.Common.Text.{Text, text, text_Eq, text_eq}
use upfpolicyengine.Types.{
  success, u8_mod, u32_mod, u64_mod, Interface, n3, n6, TransportProtocol, tcp, udp, icmp, icmpv6,
}
use upfpolicyengine.Address.{Inet, to_string, parse_address}
use upfpolicyengine.Packet.{TunnelMetadata, Packet}
use upfpolicyengine.Json.Library.{Json, IsLawful, got, ◌>>=◌, find}
use upfpolicyengine.Json.Input.{
  u16_mod, protocol_named, protocol, interface_of, unsigned_at, unsigned_member, when_present,
  tunnel_metadata, parse_packet,
}
use upfpolicyengine.Json.Output.{
  interface_name, protocol_name, tunnel_object, packet_members, packet_json,
}

-- The numbers of a packet fit their types, and its addresses are printed so that they are read back.
pub record IsWritable (inet : Inet) (p : Packet) : Type 0 where
  pub source_ip : parse_address inet (to_string inet p.source_ip) ≡ success p.source_ip
  pub destination_ip :
      parse_address inet (to_string inet p.destination_ip) ≡ success p.destination_ip
  pub source_port : p.source_port < u16_mod
  pub destination_port : p.destination_port < u16_mod
  pub payload_bytes : p.payload_bytes < u32_mod
  pub arrival_time_micros : p.arrival_time_micros < u64_mod
  pub tunnel : (t : TunnelMetadata) → p.tunnel ≡ some t → (t.teid < u32_mod) × (t.qfi < u8_mod)

module _ (json : Json) (laws : IsLawful json) where
  open json use {
    Value, number, string, array, object, contains, at, member, get_string, size, element,
  }

  abbrev Members : Type 0
  Members = List (Text × Value)

  pub at_string :
      (ms : Members) (key s : Text)
      → find key ms ≡ some (string s)
      → (at (object ms) key >>= get_string) ≡ got s
  at_string ms key s e = rw (laws.object_at ms key (string s) e) (laws.string_got s)

  pub at_number :
      (ms : Members) (key : Text) (n width : ℕ)
      → find key ms ≡ some (number n)
      → n < width
      → unsigned_at json (object ms) key width ≡ got n
  at_number ms key n width e lt =
      rw (laws.object_at ms key (number n) e, laws.number_got width n) (ap got (mod-eq_of_lt lt))

  pub member_number :
      (ms : Members) (key : Text) (n width : ℕ)
      → find key ms ≡ some (number n)
      → n < width
      → unsigned_member json (object ms) key width ≡ got n
  member_number ms key n width e lt =
      rw (laws.object_member ms key (number n) e, laws.number_got width n)
        (ap got (mod-eq_of_lt lt))

  protocol_named-name : (p : TransportProtocol) → protocol_named json (protocol_name p) ≡ some p
  unfolding text text_eq
  protocol_named-name tcp = refl
  protocol_named-name udp = refl
  protocol_named-name icmp = refl
  protocol_named-name icmpv6 = refl

  pub at_protocol :
      (ms : Members) (key : Text) (p : TransportProtocol)
      → find key ms ≡ some (string (protocol_name p))
      → (at (object ms) key >>= protocol json) ≡ got (some p)
  unfolding protocol
  at_protocol ms key p e =
      rw
        (
          laws.object_at ms key (string (protocol_name p)) e,
          laws.string_is (protocol_name p),
          laws.string_got (protocol_name p),
        )
        (ap got (protocol_named-name p))

  pub interface_of-name : (i : Interface) → interface_of json (string (interface_name i)) ≡ i
  unfolding text text_eq
  interface_of-name n3 = rw (laws.string_equals (text "N3") (text "N3")) refl
  interface_of-name n6 = rw (laws.string_equals (text "N6") (text "N3")) refl

  abbrev pub tunnel_member : Option TunnelMetadata → Option Value
  tunnel_member none = none
  tunnel_member (some t) = some (tunnel_object json t)

  abbrev tunnel_fields : TunnelMetadata → Members
  tunnel_fields t = (text "teid", number t.teid) ∷ (text "qfi", number t.qfi) ∷ []

  find-tunnel_fields :
      (t : TunnelMetadata)
      → (find (text "teid") (tunnel_fields t) ≡ some (number t.teid))
        × (find (text "qfi") (tunnel_fields t) ≡ some (number t.qfi))
  unfolding find text text_eq
  find-tunnel_fields t = (refl, refl)

  pub read_metadata :
      (ms : Members) (t : TunnelMetadata)
      → find (text "tunnel") ms ≡ some (tunnel_object json t)
      → (t.teid < u32_mod) × (t.qfi < u8_mod)
      → tunnel_metadata json (object ms) ≡ got t
  unfolding tunnel_metadata
  read_metadata ms t e (teid, qfi) =
      let fields = tunnel_fields t in
      let (at_teid, at_qfi) = find-tunnel_fields t in
      rw
        (
          laws.object_member ms (text "tunnel") (tunnel_object json t) e,
          member_number fields (text "teid") t.teid u32_mod at_teid teid,
          member_number fields (text "qfi") t.qfi u8_mod at_qfi qfi,
        )
        refl

  pub read_tunnel :
      (ms : Members) (o : Option TunnelMetadata)
      → find (text "tunnel") ms ≡ tunnel_member o
      → ((t : TunnelMetadata) → o ≡ some t → (t.teid < u32_mod) × (t.qfi < u8_mod))
      → when_present json (object ms) (text "tunnel") (tunnel_metadata json (object ms)) ≡ got o
  unfolding when_present
  read_tunnel ms none e h = rw (laws.object_contains ms (text "tunnel"), e) refl
  read_tunnel ms (some t) e h =
      rw (laws.object_contains ms (text "tunnel"), e, read_metadata ms t e (h t refl)) refl

  -- The members that the reader of a packet looks for.
  record IsWritten (inet : Inet) (p : Packet) (o : Option TunnelMetadata) (ms : Members)
      : Type 0 where
    packet_id : find (text "packetId") ms ≡ some (string p.packet_id)
    session_id : find (text "sessionId") ms ≡ some (string p.session_id)
    ingress : find (text "ingress") ms ≡ some (string (interface_name p.ingress))
    tunnel : find (text "tunnel") ms ≡ tunnel_member o
    source_ip : find (text "sourceIp") ms ≡ some (string (to_string inet p.source_ip))
    destination_ip :
        find (text "destinationIp") ms ≡ some (string (to_string inet p.destination_ip))
    protocol : find (text "protocol") ms ≡ some (string (protocol_name p.protocol))
    source_port : find (text "sourcePort") ms ≡ some (number p.source_port)
    destination_port : find (text "destinationPort") ms ≡ some (number p.destination_port)
    payload_bytes : find (text "payloadBytes") ms ≡ some (number p.payload_bytes)
    arrival_time_micros : find (text "arrivalTimeMicros") ms ≡ some (number p.arrival_time_micros)

  abbrev all_members : Inet → Packet → Option TunnelMetadata → Members
  all_members inet p none = packet_members json inet p
  all_members inet p (some t) =
      push_back (packet_members json inet p) (text "tunnel", tunnel_object json t)

  all_members-IsWritten :
      (inet : Inet) (p : Packet) (o : Option TunnelMetadata)
      → IsWritten inet p o (all_members inet p o)
  unfolding find text text_eq
  all_members-IsWritten inet p none = record {
    packet_id = refl;
    session_id = refl;
    ingress = refl;
    tunnel = refl;
    source_ip = refl;
    destination_ip = refl;
    protocol = refl;
    source_port = refl;
    destination_port = refl;
    payload_bytes = refl;
    arrival_time_micros = refl;
  }
  all_members-IsWritten inet p (some t) = record {
    packet_id = refl;
    session_id = refl;
    ingress = refl;
    tunnel = refl;
    source_ip = refl;
    destination_ip = refl;
    protocol = refl;
    source_port = refl;
    destination_port = refl;
    payload_bytes = refl;
    arrival_time_micros = refl;
  }

  no_tunnel : (inet : Inet) (p : Packet) → find (text "tunnel") (packet_members json inet p) ≡ none
  unfolding find text text_eq
  no_tunnel inet p = refl

  packet_json-members :
      (inet : Inet) (p : Packet) → packet_json json inet p ≡ object (all_members inet p p.tunnel)
  unfolding packet_json
  packet_json-members inet p = by_tunnel p.tunnel
    where
      by_tunnel :
          (o : Option TunnelMetadata)
          → (elim o as (λ x. Value) [
            | none ↦ object (packet_members json inet p)
            | some t ↦
                json.assign
                  (object (packet_members json inet p))
                  (text "tunnel")
                  (tunnel_object json t)
          ])
            ≡ object (all_members inet p o)
      by_tunnel none = refl
      by_tunnel (some t) =
          laws.object_assign (packet_members json inet p) (text "tunnel") (tunnel_object json t)
            (no_tunnel inet p)

  parse_packet-written :
      (inet : Inet) (p : Packet) (ms : Members)
      → IsWritable inet p
      → IsWritten inet p p.tunnel ms
      → parse_packet json inet (object ms) ≡ got p
  unfolding parse_packet
  parse_packet-written inet p ms w h =
      rw
        (
          at_string ms (text "packetId") p.packet_id h.packet_id,
          at_string ms (text "sessionId") p.session_id h.session_id,
          laws.object_at ms (text "ingress") (string (interface_name p.ingress)) h.ingress,
          read_tunnel ms p.tunnel h.tunnel w.tunnel,
          at_string ms (text "sourceIp") (to_string inet p.source_ip) h.source_ip,
          at_string ms (text "destinationIp") (to_string inet p.destination_ip) h.destination_ip,
          w.source_ip,
          w.destination_ip,
          at_protocol ms (text "protocol") p.protocol h.protocol,
          at_number ms (text "sourcePort") p.source_port u16_mod h.source_port w.source_port,
          at_number ms (text "destinationPort") p.destination_port u16_mod h.destination_port
              w.destination_port,
          at_number ms (text "payloadBytes") p.payload_bytes u32_mod h.payload_bytes
              w.payload_bytes,
          at_number ms (text "arrivalTimeMicros") p.arrival_time_micros u64_mod
              h.arrival_time_micros w.arrival_time_micros,
          interface_of-name p.ingress,
        )
        refl

  pub parse_packet-packet_json :
      (inet : Inet) (p : Packet)
      → IsWritable inet p
      → parse_packet json inet (packet_json json inet p) ≡ got p
  parse_packet-packet_json inet p w = rw (packet_json-members inet p) (
      parse_packet-written inet p (all_members inet p p.tunnel) w
        (all_members-IsWritten inet p p.tunnel))
