-- ===== src/Witnesses/Fixture.antt =====
-- A session with an uplink and a downlink rule, and packets for it.
use upfpolicyengine.Common.{none, some, [], ◌∷◌}
use upfpolicyengine.Common.Text.{text}
use upfpolicyengine.Types.{
  n3, n6, udp, opened, forward, remove, add, CapacityLimits, default_limits,
}
use upfpolicyengine.Address.{Inet, IpAddress, IpPrefix, ipv4, ipv6, zeros}
use upfpolicyengine.Packet.{Packet, TunnelMetadata}
use upfpolicyengine.Rules.{Pdr, Far, Qer, Urr, RuleSet}

abbrev pub inet : Inet
inet = record {
  pton = λ family s. elim family [ ipv4 ↦ some (10 ∷ 0 ∷ 0 ∷ 0 ∷ []) | ipv6 ↦ none ];
  ntop = λ family bytes. some (text "10.0.0.0");
}

abbrev pub network : IpAddress
network = record { family = ipv4; bytes = 10 ∷ 0 ∷ 0 ∷ 0 ∷ zeros 12 }

abbrev pub ue : IpAddress
ue = record { family = ipv4; bytes = 10 ∷ 0 ∷ 0 ∷ 7 ∷ zeros 12 }

abbrev pub server : IpAddress
server = record { family = ipv4; bytes = 8 ∷ 8 ∷ 8 ∷ 8 ∷ zeros 12 }

abbrev pub ue_prefix : IpPrefix
ue_prefix = record { network = network; length = 22 }

abbrev pub tunnel : TunnelMetadata
tunnel = record { teid = 100; qfi = 9 }

abbrev pub uplink : Pdr
uplink = record {
  id = record { value = 1 };
  precedence = 10;
  source_interface = n3;
  teid = some 100;
  ue_prefix = ue_prefix;
  protocol = some udp;
  local_ports = none;
  remote_ports = some (record { first = 50; last = 60 });
  qfi = none;
  far_id = record { value = 1 };
  qer_id = some (record { value = 1 });
  urr_id = some (record { value = 1 });
  generation = 1;
}

abbrev pub downlink : Pdr
downlink = record uplink {
  id = record { value = 2 };
  source_interface = n6;
  teid = none;
  far_id = record { value = 2 };
}

abbrev pub to_network : Far
to_network = record {
  id = record { value = 1 };
  action = forward;
  destination = some n6;
  operation = remove;
  tunnel = none;
}

abbrev pub to_ue : Far
to_ue = record {
  id = record { value = 2 };
  action = forward;
  destination = some n3;
  operation = add;
  tunnel = some tunnel;
}

abbrev pub qer : Qer
qer = record {
  id = record { value = 1 };
  gate = opened;
  rate_bits_per_second = 8000;
  burst_bytes = 1500;
  qfi = none;
  generation = 1;
}

abbrev pub urr : Urr
urr = record { id = record { value = 1 }; volume_threshold_bytes = 1000; generation = 1 }

abbrev pub rules : RuleSet
rules = record {
  session_id = text "s";
  version = 1;
  pdrs = uplink ∷ downlink ∷ [];
  fars = to_network ∷ to_ue ∷ [];
  qers = qer ∷ [];
  urrs = urr ∷ [];
}

abbrev pub packet : Packet
packet = record {
  packet_id = text "p";
  session_id = text "s";
  ingress = n3;
  tunnel = some tunnel;
  source_ip = ue;
  destination_ip = server;
  protocol = udp;
  source_port = 4000;
  destination_port = 53;
  payload_bytes = 1200;
  arrival_time_micros = 5;
}

abbrev pub limits : CapacityLimits
limits = default_limits
