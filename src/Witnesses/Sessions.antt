-- ===== src/Witnesses/Sessions.antt =====
-- The theorem on documents with rules, at a session with one rule of each kind.
use upfpolicyengine.Common.{◌≡◌, refl, inr, none, some, [], ◌∷◌, arith}
use upfpolicyengine.Common.Text.{text, text_eq}
use upfpolicyengine.Types.{n3, udp, opened, drop, tunnel_none}
use upfpolicyengine.Address.{
  ipv4, zeros, parse_prefix, parse_address, parse_length, split_slash, c_str, strtol, skip_spaces,
  read_digits, has_host_bits, bit_at,
}
use upfpolicyengine.Rules.{Pdr, Far, Qer, RuleSet}
use upfpolicyengine.Json.Library.{got, find}
use upfpolicyengine.Json.Input.{parse_rules}
use upfpolicyengine.Json.Described.{
  Members, DescribesPdr, DescribesFar, DescribesQer, DescribesRules,
}
use upfpolicyengine.Json.ReadRules.{parse_rules-Described}
use upfpolicyengine.Witnesses.Documents.{string_node, number_node, trees-IsLawful, echo_inet}
use upfpolicyengine.Witnesses.Files.{library, parse_document}

abbrev pdr : Pdr
pdr = record {
  id = record { value = 10 };
  precedence = 100;
  source_interface = n3;
  teid = some 1001;
  ue_prefix = record {
    network = record { family = ipv4; bytes = 49 ∷ 50 ∷ 51 ∷ 52 ∷ zeros 12 };
    length = 32;
  };
  protocol = some udp;
  local_ports = none;
  remote_ports = some (record { first = 443; last = 444 });
  qfi = some 9;
  far_id = record { value = 20 };
  qer_id = some (record { value = 30 });
  urr_id = none;
  generation = 1;
}

abbrev pdr_members : Members library
pdr_members =
    (text "id", number_node 10)
    ∷ (text "precedence", number_node 100)
    ∷ (text "sourceInterface", string_node (text "N3"))
    ∷ (text "teid", number_node 1001)
    ∷ (text "uePrefix", string_node (text "1234/32"))
    ∷ (text "protocol", string_node (text "UDP"))
    ∷ (
      text "remotePorts",
      library.object ((text "first", number_node 443) ∷ (text "last", number_node 444) ∷ []),
    )
    ∷ (text "qfi", number_node 9)
    ∷ (text "farId", number_node 20)
    ∷ (text "qerId", number_node 30)
    ∷ []

pdr-Described : DescribesPdr library echo_inet pdr pdr_members
unfolding find text text_eq parse_prefix parse_address parse_length split_slash c_str strtol
    skip_spaces read_digits has_host_bits bit_at
pdr-Described = record {
  id = refl;
  small_id = omega arith;
  precedence = refl;
  small_precedence = omega arith;
  source = refl;
  teid = refl;
  small_teid = omega arith;
  prefix = text "1234/32";
  ue_prefix = refl;
  prefix_read = refl;
  protocol = refl;
  local_ports = refl;
  small_local = tt;
  remote_ports = refl;
  small_remote = (omega arith, omega arith);
  qfi = refl;
  small_qfi = omega arith;
  far_id = refl;
  small_far_id = omega arith;
  qer_id = refl;
  small_qer_id = omega arith;
  urr_id = refl;
  small_urr_id = tt;
  generation = refl;
}

abbrev far : Far
far = record {
  id = record { value = 20 };
  action = drop;
  destination = none;
  operation = tunnel_none;
  tunnel = none;
}

abbrev far_members : Members library
far_members = (text "id", number_node 20) ∷ (text "action", string_node (text "DROP")) ∷ []

far-Described : DescribesFar library far far_members
unfolding find text text_eq
far-Described = record {
  id = refl;
  small_id = omega arith;
  action = refl;
  destination = refl;
  operation = inr (refl, refl);
  tunnel = refl;
  small_tunnel = tt;
}

abbrev qer : Qer
qer = record {
  id = record { value = 30 };
  gate = opened;
  rate_bits_per_second = 8000;
  burst_bytes = 1500;
  qfi = none;
  generation = 2;
}

abbrev qer_members : Members library
qer_members =
    (text "id", number_node 30)
    ∷ (text "gate", string_node (text "OPEN"))
    ∷ (text "rateBitsPerSecond", number_node 8000)
    ∷ (text "burstBytes", number_node 1500)
    ∷ (text "generation", number_node 2)
    ∷ []

qer-Described : DescribesQer library qer qer_members
unfolding find text text_eq
qer-Described = record {
  id = refl;
  small_id = omega arith;
  gate = refl;
  rate = refl;
  small_rate = omega arith;
  burst = refl;
  small_burst = omega arith;
  generation = refl;
  small_generation = omega arith;
  qfi = refl;
}

abbrev session : RuleSet
session = record {
  session_id = text "s";
  version = 3;
  pdrs = pdr ∷ [];
  fars = far ∷ [];
  qers = qer ∷ [];
  urrs = [];
}

abbrev session_members : Members library
session_members =
    (text "sessionId", string_node (text "s"))
    ∷ (text "rulesetVersion", number_node 3)
    ∷ (text "pdrs", library.array (library.object pdr_members ∷ []))
    ∷ (text "fars", library.array (library.object far_members ∷ []))
    ∷ (text "qers", library.array (library.object qer_members ∷ []))
    ∷ (text "urrs", library.array [])
    ∷ []

session-Described : DescribesRules library echo_inet session session_members
unfolding find text text_eq
session-Described = record {
  session_id = refl;
  version = refl;
  small_version = omega arith;
  pdrs = (pdr, pdr_members) ∷ [];
  pdrs_found = refl;
  pdrs_described = (pdr-Described, tt);
  pdrs_all = refl;
  fars = (far, far_members) ∷ [];
  fars_found = refl;
  fars_described = (far-Described, tt);
  fars_all = refl;
  qers = (qer, qer_members) ∷ [];
  qers_found = refl;
  qers_described = (qer-Described, tt);
  qers_all = refl;
  urrs = [];
  urrs_found = refl;
  urrs_described = tt;
  urrs_all = refl;
}

parse_rules-Described_example :
    parse_rules library echo_inet (library.object session_members) ≡ got session
parse_rules-Described_example =
    parse_rules-Described library (trees-IsLawful parse_document) echo_inet session session_members
      session-Described
