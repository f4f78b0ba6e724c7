-- ===== src/Json/Input.antt =====
-- `readJson`, `protocol`, `parseRules` and `parsePackets`. Where an error is met twice in one
-- expression, the operands are taken from left to right.
use upfpolicyengine.Common.{
  ℕ, zero, suc, ◌^◌, not, Option, none, some, List, [], ◌∷◌, ◌++◌, ◌==◌, if◌then◌else◌,
}
use upfpolicyengine.Common.Text.{Text, text, text_Eq}
use upfpolicyengine.Types.{
  Result, success, failure, u8_mod, u32_mod, u64_mod, RuleId, Interface, n3, n6, TransportProtocol,
  tcp, udp, icmp, icmpv6, opened, closed, forward, drop, TunnelOperation, tunnel_none, add, remove,
}
use upfpolicyengine.Address.{Inet, IpAddress, PortRange, parse_address, parse_prefix}
use upfpolicyengine.Packet.{TunnelMetadata, Packet}
use upfpolicyengine.Rules.{Pdr, Far, Qer, Urr, RuleSet}
use upfpolicyengine.Json.Library.{Json, Read, got, failed, ◌>>=◌}

abbrev pub u16_mod : ℕ
u16_mod = 2 ^ 16

-- `if (!r.ok()) return failure(r.error());`, then `r.value()`
abbrev pub or_return {ℓ} : {A : Type ℓ} → Result A → Read A
or_return (success a) = got a
or_return (failure error) = failed error

-- A loop over positions, from `i` on with the rounds that are left, that pushes what it reads of
-- each item back.
unfoldable pub read_each {ℓ κ} :
    {V : Type ℓ} {A : Type κ} → (ℕ → Read V) → (V → Read A) → ℕ → ℕ → Read (List A)
read_each item f i zero = got []
read_each item f i (suc rounds) = do
  v ← item i
  a ← f v
  rest ← read_each item f (suc i) rounds
  got (a ∷ rest)

module _ (json : Json) where
  open json use {
    Value, parse, is_string, get_string, get_unsigned, equals, contains, at, member, size, element,
  }

  -- `readJson`, for the content of the file, which is `none` where it cannot be opened.
  unfoldable pub read_json : (Text → Option Text) → Text → Result Value
  read_json files path = elim (files path) [
    | none ↦ failure (text "cannot read " ++ path)
    | some content ↦ parse content
  ]

  abbrev pub protocol_named : Text → Option TransportProtocol
  protocol_named name =
      if name == text "TCP"
      then some tcp
      else if name == text "UDP"
      then some udp
      else if name == text "ICMP"
      then some icmp
      else if name == text "ICMPV6"
      then some icmpv6
      else none

  -- `protocol`
  unfoldable pub protocol : Value → Read (Option TransportProtocol)
  protocol v =
      if not (is_string v) then got none else (do name ← get_string v; got (protocol_named name))

  abbrev pub interface_of : Value → Interface
  interface_of v = if equals v (text "N3") then n3 else n6

  -- `item.at(key).get<T>()`, and `item[key].get<T>()`
  abbrev pub unsigned_at : Value → Text → ℕ → Read ℕ
  unsigned_at item key width = at item key >>= get_unsigned width

  abbrev pub unsigned_member : Value → Text → ℕ → Read ℕ
  unsigned_member item key width = member item key >>= get_unsigned width

  -- `if (item.contains(key))` the option that is read, and the absent one otherwise.
  unfoldable pub when_present {ℓ} : {A : Type ℓ} → Value → Text → Read A → Read (Option A)
  when_present item key r = if contains item key then (r >>= λ a. got (some a)) else got none

  unfoldable pub port_range : Value → Text → Read PortRange
  port_range item key = do
    range ← member item key
    first ← unsigned_member range (text "first") u16_mod
    again ← member item key
    last ← unsigned_member again (text "last") u16_mod
    got (record { first = first; last = last })

  unfoldable pub tunnel_metadata : Value → Read TunnelMetadata
  tunnel_metadata item = do
    tunnel ← member item (text "tunnel")
    teid ← unsigned_member tunnel (text "teid") u32_mod
    again ← member item (text "tunnel")
    qfi ← unsigned_member again (text "qfi") u8_mod
    got (record { teid = teid; qfi = qfi })

  unfoldable pub rule_id : Read ℕ → Read RuleId
  rule_id r = r >>= λ n. got (record { value = n })

  module _ (inet : Inet) where
    -- The bodies of the four loops of `parseRules`.
    unfoldable pub parse_pdr : Value → Read Pdr
    unfolding when_present port_range rule_id protocol
    parse_pdr item = do
      id ← rule_id (unsigned_at item (text "id") u32_mod)
      precedence ← unsigned_at item (text "precedence") u32_mod
      source_interface ← at item (text "sourceInterface")
      teid ← when_present item (text "teid") (unsigned_at item (text "teid") u32_mod)
      prefix_text ← at item (text "uePrefix") >>= get_string
      ue_prefix ← or_return (parse_prefix inet prefix_text)
      protocol_value ←
          if contains item (text "protocol")
          then (at item (text "protocol") >>= protocol)
          else got none
      local_ports ← when_present item (text "localPorts") (port_range item (text "localPorts"))
      remote_ports ← when_present item (text "remotePorts") (port_range item (text "remotePorts"))
      qfi ← when_present item (text "qfi") (unsigned_member item (text "qfi") u8_mod)
      far_id ← rule_id (unsigned_at item (text "farId") u32_mod)
      qer_id ←
          when_present item (text "qerId") (rule_id (unsigned_member item (text "qerId") u32_mod))
      urr_id ←
          when_present item (text "urrId") (rule_id (unsigned_member item (text "urrId") u32_mod))
      got (record {
        id = id;
        precedence = precedence;
        source_interface = interface_of source_interface;
        teid = teid;
        ue_prefix = ue_prefix;
        protocol = protocol_value;
        local_ports = local_ports;
        remote_ports = remote_ports;
        qfi = qfi;
        far_id = far_id;
        qer_id = qer_id;
        urr_id = urr_id;
        generation = 1;
      })

    -- `parsePackets`: the body of its loop.
    unfoldable pub parse_packet : Value → Read Packet
    unfolding when_present tunnel_metadata protocol
    parse_packet item = do
      packet_id ← at item (text "packetId") >>= get_string
      session_id ← at item (text "sessionId") >>= get_string
      ingress ← at item (text "ingress")
      tunnel ← when_present item (text "tunnel") (tunnel_metadata item)
      source_text ← at item (text "sourceIp") >>= get_string
      let source = parse_address inet source_text
      destination_text ← at item (text "destinationIp") >>= get_string
      (source_ip, destination_ip) ← both_addresses source (parse_address inet destination_text)
      protocol_value ← at item (text "protocol") >>= protocol
      protocol ← present_protocol protocol_value
      source_port ← unsigned_at item (text "sourcePort") u16_mod
      destination_port ← unsigned_at item (text "destinationPort") u16_mod
      payload_bytes ← unsigned_at item (text "payloadBytes") u32_mod
      arrival_time_micros ← unsigned_at item (text "arrivalTimeMicros") u64_mod
      got (record {
        packet_id = packet_id;
        session_id = session_id;
        ingress = interface_of ingress;
        tunnel = tunnel;
        source_ip = source_ip;
        destination_ip = destination_ip;
        protocol = protocol;
        source_port = source_port;
        destination_port = destination_port;
        payload_bytes = payload_bytes;
        arrival_time_micros = arrival_time_micros;
      })
      where
        both_addresses : Result IpAddress → Result IpAddress → Read (IpAddress × IpAddress)
        both_addresses (success s) (success d) = got (s, d)
        both_addresses _ _ = failed (text "invalid packet address")

        present_protocol : Option TransportProtocol → Read TransportProtocol
        present_protocol (some p) = got p
        present_protocol none = failed (text "invalid protocol")

    -- `parsePackets`
    unfoldable pub parse_packets : Value → Read (List Packet)
    unfolding read_each parse_packet
    parse_packets root = do
      packets ← at root (text "packets")
      read_each (λ i. member root (text "packets") >>= λ list. element list i) parse_packet 0
          (size packets)

  unfoldable pub parse_far : Value → Read Far
  unfolding when_present tunnel_metadata rule_id
  parse_far item = do
    id ← rule_id (unsigned_at item (text "id") u32_mod)
    action ← at item (text "action")
    destination ←
        when_present item (text "destinationInterface")
          (member item (text "destinationInterface") >>= λ v. got (interface_of v))
    operation ←
        if contains item (text "tunnelOperation")
        then (member item (text "tunnelOperation") >>= get_string >>= λ op.
            got (operation_named op))
        else got tunnel_none
    tunnel ← when_present item (text "tunnel") (tunnel_metadata item)
    got (record {
      id = id;
      action = if equals action (text "FORWARD") then forward else drop;
      destination = destination;
      operation = operation;
      tunnel = tunnel;
    })
    where
      operation_named : Text → TunnelOperation
      operation_named op =
          if op == text "ADD" then add else if op == text "REMOVE" then remove else tunnel_none

  unfoldable pub parse_qer : Value → Read Qer
  unfolding rule_id
  parse_qer item = do
    id ← rule_id (unsigned_at item (text "id") u32_mod)
    gate ← at item (text "gate")
    rate ← unsigned_at item (text "rateBitsPerSecond") u64_mod
    burst ← unsigned_at item (text "burstBytes") u64_mod
    generation ← unsigned_at item (text "generation") u32_mod
    got (record {
      id = id;
      gate = if equals gate (text "OPEN") then opened else closed;
      rate_bits_per_second = rate;
      burst_bytes = burst;
      qfi = none;
      generation = generation;
    })

  unfoldable pub parse_urr : Value → Read Urr
  unfolding rule_id
  parse_urr item = do
    id ← rule_id (unsigned_at item (text "id") u32_mod)
    threshold ← unsigned_at item (text "volumeThresholdBytes") u64_mod
    generation ← unsigned_at item (text "generation") u32_mod
    got (record { id = id; volume_threshold_bytes = threshold; generation = generation })

  -- One of the loops of `parseRules`, over an array of the document.
  unfoldable pub read_list {ℓ} : {A : Type ℓ} → Value → Text → (Value → Read A) → Read (List A)
  unfolding read_each
  read_list root key f = do list ← at root key; read_each (element list) f 0 (size list)

  -- `parseRules`
  unfoldable pub parse_rules : Inet → Value → Read RuleSet
  unfolding read_list parse_pdr parse_far parse_qer parse_urr
  parse_rules inet root = do
    session_id ← at root (text "sessionId") >>= get_string
    version ← unsigned_at root (text "rulesetVersion") u64_mod
    pdrs ← read_list root (text "pdrs") (parse_pdr inet)
    fars ← read_list root (text "fars") parse_far
    qers ← read_list root (text "qers") parse_qer
    urrs ← read_list root (text "urrs") parse_urr
    got (record {
      session_id = session_id;
      version = version;
      pdrs = pdrs;
      fars = fars;
      qers = qers;
      urrs = urrs;
    })
