-- ===== src/Scenarios/Literals.antt =====
-- The addresses in the rules and the packets of the scenarios, as `inet_pton` reads them.
use upfpolicyengine.Common.{ℕ, ◌≡◌, refl, some, List, [], ◌∷◌}
use upfpolicyengine.Common.Text.{Text, text, text_Eq}
use upfpolicyengine.Types.{success}
use upfpolicyengine.Address.{
  Inet, IpAddress, IpPrefix, ipv4, zeros, parse_address, parse_prefix, c_str, split_slash,
  overwrite, strtol, skip_spaces, read_digits, has_host_bits, bit_at, parse_length,
}
use upfpolicyengine.Scenarios.Fixtures.{
  uplink_rule_set, uplink_packet_between, downlink_rule_set, downlink_packet_between, uplink_rules,
  uplink_packet, downlink_rules, downlink_packet,
}

abbrev pub network : IpAddress
network = record { family = ipv4; bytes = 10 ∷ 10 ∷ 0 ∷ 0 ∷ zeros 12 }

abbrev pub ue : IpAddress
ue = record { family = ipv4; bytes = 10 ∷ 10 ∷ 0 ∷ 7 ∷ zeros 12 }

abbrev pub server : IpAddress
server = record { family = ipv4; bytes = 192 ∷ 0 ∷ 2 ∷ 20 ∷ zeros 12 }

abbrev pub prefix : IpPrefix
prefix = record { network = network; length = 24 }

-- `inet_pton` reads the addresses of the scenarios as dotted decimals.
pub record ReadsAddresses (inet : Inet) : Type 0 where
  pub network : inet.pton ipv4 (text "10.10.0.0") ≡ some (10 ∷ 10 ∷ 0 ∷ 0 ∷ [])
  pub ue : inet.pton ipv4 (text "10.10.0.7") ≡ some (10 ∷ 10 ∷ 0 ∷ 7 ∷ [])
  pub server : inet.pton ipv4 (text "192.0.2.20") ≡ some (192 ∷ 0 ∷ 2 ∷ 20 ∷ [])

parse_address-reads :
    (inet : Inet) (s : Text) (bytes : List ℕ)
    → inet.pton ipv4 (c_str s) ≡ some bytes
    → parse_address inet s ≡ success (record { family = ipv4; bytes = overwrite bytes (zeros 16) })
unfolding parse_address
parse_address-reads inet s bytes e = rw (parse_address, e) refl

reads_prefix :
    (inet : Inet) → ReadsAddresses inet → parse_prefix inet (text "10.10.0.0/24") ≡ success prefix
unfolding parse_prefix text c_str split_slash parse_length strtol skip_spaces read_digits
    has_host_bits bit_at
reads_prefix inet h =
    rw (parse_prefix, parse_address-reads inet (text "10.10.0.0") (10 ∷ 10 ∷ 0 ∷ 0 ∷ []) h.network)
      refl

reads_ue : (inet : Inet) → ReadsAddresses inet → parse_address inet (text "10.10.0.7") ≡ success ue
unfolding text c_str
reads_ue inet h = parse_address-reads inet (text "10.10.0.7") (10 ∷ 10 ∷ 0 ∷ 7 ∷ []) h.ue

reads_server :
    (inet : Inet) → ReadsAddresses inet → parse_address inet (text "192.0.2.20") ≡ success server
unfolding text c_str
reads_server inet h = parse_address-reads inet (text "192.0.2.20") (192 ∷ 0 ∷ 2 ∷ 20 ∷ []) h.server

pub uplink_rules-some :
    (inet : Inet) → ReadsAddresses inet → uplink_rules inet ≡ some (uplink_rule_set prefix)
unfolding uplink_rules
uplink_rules-some inet h = rw (reads_prefix inet h) refl

pub downlink_rules-some :
    (inet : Inet) → ReadsAddresses inet → downlink_rules inet ≡ some (downlink_rule_set prefix)
unfolding downlink_rules
downlink_rules-some inet h = rw (reads_prefix inet h) refl

pub uplink_packet-some :
    (inet : Inet)
    → ReadsAddresses inet
    → uplink_packet inet ≡ some (uplink_packet_between ue server)
unfolding uplink_packet
uplink_packet-some inet h = rw (reads_ue inet h, reads_server inet h) refl

pub downlink_packet-some :
    (inet : Inet)
    → ReadsAddresses inet
    → downlink_packet inet ≡ some (downlink_packet_between server ue)
unfolding downlink_packet
downlink_packet-some inet h = rw (reads_ue inet h, reads_server inet h) refl
