-- ===== src/Scenarios/Fixtures.antt =====
-- The rules and the packets of the built-in scenarios. `none` is: `value()` of a literal that is not
-- parsed throws.
use upfpolicyengine.Common.{Option, none, some, [], ◌∷◌, ◌>>=◌}
use upfpolicyengine.Common.Text.{text}
use upfpolicyengine.Types.{n3, n6, udp, opened, forward, add, remove, result_value}
use upfpolicyengine.Address.{Inet, IpAddress, IpPrefix, parse_address, parse_prefix}
use upfpolicyengine.Packet.{Packet}
use upfpolicyengine.Rules.{RuleSet}

abbrev pub uplink_rule_set : IpPrefix → RuleSet
uplink_rule_set prefix = record {
  session_id = text "session-1";
  version = 3;
  pdrs =
      record {
        id = record { value = 10 };
        precedence = 100;
        source_interface = n3;
        teid = some 1001;
        ue_prefix = prefix;
        protocol = some udp;
        local_ports = some (record { first = 41000; last = 41000 });
        remote_ports = some (record { first = 443; last = 443 });
        qfi = some 9;
        far_id = record { value = 20 };
        qer_id = some (record { value = 30 });
        urr_id = some (record { value = 40 });
        generation = 1;
      }
      ∷ [];
  fars =
      record {
        id = record { value = 20 };
        action = forward;
        destination = some n6;
        operation = remove;
        tunnel = none;
      }
      ∷ [];
  qers =
      record {
        id = record { value = 30 };
        gate = opened;
        rate_bits_per_second = 10000000;
        burst_bytes = 20000;
        qfi = none;
        generation = 1;
      }
      ∷ [];
  urrs = record { id = record { value = 40 }; volume_threshold_bytes = 10000; generation = 1 } ∷ [];
}

unfoldable pub uplink_rules : Inet → Option RuleSet
unfolding parse_prefix
uplink_rules inet = do
  prefix ← result_value (parse_prefix inet (text "10.10.0.0/24"))
  some (uplink_rule_set prefix)

abbrev pub uplink_packet_between : IpAddress → IpAddress → Packet
uplink_packet_between source_ip destination_ip = record {
  packet_id = text "pkt-ul-001";
  session_id = text "session-1";
  ingress = n3;
  tunnel = some (record { teid = 1001; qfi = 9 });
  source_ip = source_ip;
  destination_ip = destination_ip;
  protocol = udp;
  source_port = 41000;
  destination_port = 443;
  payload_bytes = 1200;
  arrival_time_micros = 0;
}

unfoldable pub uplink_packet : Inet → Option Packet
unfolding parse_address
uplink_packet inet = do
  source_ip ← result_value (parse_address inet (text "10.10.0.7"))
  destination_ip ← result_value (parse_address inet (text "192.0.2.20"))
  some (uplink_packet_between source_ip destination_ip)

abbrev pub downlink_rule_set : IpPrefix → RuleSet
downlink_rule_set prefix = record {
  session_id = text "session-1";
  version = 3;
  pdrs =
      record {
        id = record { value = 11 };
        precedence = 100;
        source_interface = n6;
        teid = none;
        ue_prefix = prefix;
        protocol = some udp;
        local_ports = some (record { first = 41000; last = 41000 });
        remote_ports = some (record { first = 443; last = 443 });
        qfi = none;
        far_id = record { value = 21 };
        qer_id = some (record { value = 31 });
        urr_id = some (record { value = 41 });
        generation = 1;
      }
      ∷ [];
  fars =
      record {
        id = record { value = 21 };
        action = forward;
        destination = some n3;
        operation = add;
        tunnel = some (record { teid = 2001; qfi = 9 });
      }
      ∷ [];
  qers =
      record {
        id = record { value = 31 };
        gate = opened;
        rate_bits_per_second = 10000000;
        burst_bytes = 20000;
        qfi = none;
        generation = 1;
      }
      ∷ [];
  urrs = record { id = record { value = 41 }; volume_threshold_bytes = 10000; generation = 1 } ∷ [];
}

unfoldable pub downlink_rules : Inet → Option RuleSet
unfolding parse_prefix
downlink_rules inet = do
  prefix ← result_value (parse_prefix inet (text "10.10.0.0/24"))
  some (downlink_rule_set prefix)

abbrev pub downlink_packet_between : IpAddress → IpAddress → Packet
downlink_packet_between source_ip destination_ip = record {
  packet_id = text "pkt-dl-001";
  session_id = text "session-1";
  ingress = n6;
  tunnel = none;
  source_ip = source_ip;
  destination_ip = destination_ip;
  protocol = udp;
  source_port = 443;
  destination_port = 41000;
  payload_bytes = 900;
  arrival_time_micros = 0;
}

unfoldable pub downlink_packet : Inet → Option Packet
unfolding parse_address
downlink_packet inet = do
  source_ip ← result_value (parse_address inet (text "192.0.2.20"))
  destination_ip ← result_value (parse_address inet (text "10.10.0.7"))
  some (downlink_packet_between source_ip destination_ip)
