-- ===== src/Json/ReadRules.antt =====
-- `parseRules` on a document that describes a rule set.
use upfpolicyengine.Common.{
  ◌<◌, ◌≡◌, refl, sym, ap, ◌∙◌, ◌⊎◌, inl, inr, Option, none, some, List, ◌==◌, All, All-map, map,
  WhenSome, if◌then◌else◌,
}
use upfpolicyengine.Common.Text.{Text, text, text_Eq, text_eq}
use upfpolicyengine.Types.{
  u8_mod, u32_mod, u64_mod, RuleId, Interface, TransportProtocol, FarAction, forward, drop,
  TunnelOperation, tunnel_none, add, remove,
}
use upfpolicyengine.Address.{Inet, PortRange}
use upfpolicyengine.Packet.{TunnelMetadata}
use upfpolicyengine.Rules.{Pdr, Far, RuleSet}
use upfpolicyengine.Json.Library.{Json, IsLawful, Read, got, ◌>>=◌, find}
use upfpolicyengine.Json.Input.{
  when_present, port_range, rule_id, protocol, unsigned_at, unsigned_member, interface_of,
  parse_pdr, parse_far, parse_qer, parse_urr, parse_rules, read_list,
}
use upfpolicyengine.Json.Output.{interface_name, protocol_name, tunnel_object}
use upfpolicyengine.Json.Roundtrip.{
  at_string, at_number, member_number, at_protocol, interface_of-name, read_tunnel, tunnel_member,
}
use upfpolicyengine.Json.Lists.{read_list-array}
use upfpolicyengine.Json.Described.{
  optional, action_name, operation_name, Members, number_id, range_object, SmallRange, DescribesPdr,
  DescribesFar, DescribesQer, DescribesUrr, DescribesRules, read_optional, when, read_id, member_id,
  port_range-Described, parse_qer-Described, parse_urr-Described,
}

module _ (json : Json) (laws : IsLawful json) where
  open json use {Value, number, string, array, object, at, member, get_string, contains, equals}

  action_of-name :
      (a : FarAction)
      → (if equals (string (action_name a)) (text "FORWARD") then forward else drop) ≡ a
  unfolding text text_eq
  action_of-name forward = rw (laws.string_equals (text "FORWARD") (text "FORWARD")) refl
  action_of-name drop = rw (laws.string_equals (text "DROP") (text "FORWARD")) refl

  operation_of-name :
      (op : TunnelOperation)
      → (if operation_name op == text "ADD"
          then add
          else if operation_name op == text "REMOVE"
          then remove
          else tunnel_none)
        ≡ op
  unfolding text text_eq
  operation_of-name add = refl
  operation_of-name remove = refl
  operation_of-name tunnel_none = refl

  member_string :
      (ms : Members json) (key s : Text)
      → find key ms ≡ some (string s)
      → (member (object ms) key >>= get_string) ≡ got s
  member_string ms key s e = rw (laws.object_member ms key (string s) e) (laws.string_got s)

  optional-tunnel_member :
      (o : Option TunnelMetadata) → optional (tunnel_object json) o ≡ tunnel_member json laws o
  optional-tunnel_member none = refl
  optional-tunnel_member (some t) = refl

  read_operation :
      (ms : Members json) (op : TunnelOperation)
      → (find (text "tunnelOperation") ms ≡ some (string (operation_name op)))
        ⊎ ((find (text "tunnelOperation") ms ≡ none) × (op ≡ tunnel_none))
      → (if contains (object ms) (text "tunnelOperation")
          then (member (object ms) (text "tunnelOperation") >>= get_string >>= λ name. got (
              if name == text "ADD"
              then add
              else if name == text "REMOVE"
              then remove
              else tunnel_none))
          else got tunnel_none)
        ≡ got op
  read_operation ms op (inl e) =
      rw
        (
          laws.object_contains ms (text "tunnelOperation"),
          e,
          member_string ms (text "tunnelOperation") (operation_name op) e,
        )
        (ap got (operation_of-name op))
  read_operation ms op (inr (e, same)) =
      rw (laws.object_contains ms (text "tunnelOperation"), e) (ap got (sym same))

  read_destination :
      (ms : Members json) (o : Option Interface)
      → find (text "destinationInterface") ms ≡ optional (λ i. string (interface_name i)) o
      → when_present json
          (object ms)
          (text "destinationInterface")
          (member (object ms) (text "destinationInterface") >>= λ v. got (interface_of json v))
        ≡ got o
  read_destination ms o e =
      read_optional json laws ms (text "destinationInterface") (λ i. string (interface_name i)) o _
        e
        λ i same at.
          rw (laws.object_member ms (text "destinationInterface") (string (interface_name i)) at)
            (ap got (interface_of-name json laws i))

  parse_far-Described :
      (far : Far) (ms : Members json)
      → DescribesFar json far ms
      → parse_far json (object ms) ≡ got far
  unfolding parse_far
  parse_far-Described far ms h =
      rw
        (
          read_id json laws ms (text "id") far.id h.id h.small_id,
          laws.object_at ms (text "action") (string (action_name far.action)) h.action,
          read_destination ms far.destination h.destination,
          read_operation ms far.operation h.operation,
          read_tunnel json laws ms far.tunnel (h.tunnel ∙ optional-tunnel_member far.tunnel) (λ t e.
              when json laws (λ t. (t.teid < u32_mod) × (t.qfi < u8_mod)) far.tunnel t
                h.small_tunnel e),
          action_of-name far.action,
        )
        refl

  read_protocol :
      (ms : Members json) (o : Option TransportProtocol)
      → find (text "protocol") ms ≡ optional (λ p. string (protocol_name p)) o
      → (if contains (object ms) (text "protocol")
          then (at (object ms) (text "protocol") >>= protocol json)
          else got none)
        ≡ got o
  read_protocol ms none e = rw (laws.object_contains ms (text "protocol"), e) refl
  read_protocol ms (some p) e =
      rw
        (
          laws.object_contains ms (text "protocol"),
          e,
          at_protocol json laws ms (text "protocol") p e,
        )
        refl

  read_ports :
      (ms : Members json) (key : Text) (o : Option PortRange)
      → find key ms ≡ optional (range_object json) o
      → WhenSome o (SmallRange json)
      → when_present json (object ms) key (port_range json (object ms) key) ≡ got o
  read_ports ms key o e small =
      read_optional json laws ms key (range_object json) o (port_range json (object ms) key) e
        λ r same at.
          port_range-Described json laws ms key r at
            (when json laws (SmallRange json) o r small same)

  read_optional_id :
      (ms : Members json) (key : Text) (o : Option RuleId)
      → find key ms ≡ optional (number_id json) o
      → WhenSome o (λ i. i.value < u32_mod)
      → when_present json
          (object ms)
          key
          (rule_id json (unsigned_member json (object ms) key u32_mod))
        ≡ got o
  read_optional_id ms key o e small =
      read_optional json laws ms key (number_id json) o _ e λ i same at.
        member_id json laws ms key i at (when json laws (λ i. i.value < u32_mod) o i small same)

  parse_pdr-Described :
      (inet : Inet) (pdr : Pdr) (ms : Members json)
      → DescribesPdr json inet pdr ms
      → parse_pdr json inet (object ms) ≡ got pdr
  unfolding parse_pdr
  parse_pdr-Described inet pdr ms h =
      rw
        (
          read_id json laws ms (text "id") pdr.id h.id h.small_id,
          at_number json laws ms (text "precedence") pdr.precedence u32_mod h.precedence
              h.small_precedence,
          laws.object_at ms (text "sourceInterface") (string (interface_name pdr.source_interface))
              h.source,
          read_optional json laws ms (text "teid") number pdr.teid
              (unsigned_at json (object ms) (text "teid") u32_mod) h.teid
              (λ n same at.
                at_number json laws ms (text "teid") n u32_mod at
                  (when json laws (λ n. n < u32_mod) pdr.teid n h.small_teid same)),
          at_string json laws ms (text "uePrefix") h.prefix h.ue_prefix,
          h.prefix_read,
          read_protocol ms pdr.protocol h.protocol,
          read_ports ms (text "localPorts") pdr.local_ports h.local_ports h.small_local,
          read_ports ms (text "remotePorts") pdr.remote_ports h.remote_ports h.small_remote,
          read_optional json laws ms (text "qfi") number pdr.qfi
              (unsigned_member json (object ms) (text "qfi") u8_mod) h.qfi
              (λ n same at.
                member_number json laws ms (text "qfi") n u8_mod at
                  (when json laws (λ n. n < u8_mod) pdr.qfi n h.small_qfi same)),
          read_id json laws ms (text "farId") pdr.far_id h.far_id h.small_far_id,
          read_optional_id ms (text "qerId") pdr.qer_id h.qer_id h.small_qer_id,
          read_optional_id ms (text "urrId") pdr.urr_id h.urr_id h.small_urr_id,
          interface_of-name json laws pdr.source_interface,
        )
        (ap (λ g. got (record pdr { generation = g })) (sym h.generation))

  -- An array of objects that describe items is read as the items.
  read_list-described :
      {A : Type 0} (root : Members json) (key : Text) (Describes : A → Members json → Type 0)
      (f : Value → Read A) (xs : List (A × Members json))
      → ((a : A) (ms : Members json) → Describes a ms → f (object ms) ≡ got a)
      → find key root ≡ some (array (map (λ x. object x.1) xs))
      → All (λ x. Describes x.0 x.1) xs
      → read_list json (object root) key f ≡ got (map (λ x. x.0) xs)
  read_list-described {A} root key Describes f xs reads e h =
      read_list-array json laws root key f (λ (x : A × Members json). object x.1) (λ x. x.0) xs e
        (All-map (λ x. Describes x.0 x.1) (λ x. f (object x.1) ≡ got x.0) xs
          (λ x d. reads x.0 x.1 d) h)

  -- With a lawful library, `parseRules` reads a document that describes a rule set as that rule set,
  -- for numbers that fit their types and prefixes that are parsed: the members of every PDR, FAR and
  -- URR that the rule set has, and of every QER but its QFI, the optional ones where they are there,
  -- in order. Members of other names do not matter, a number (a TEID or QFI too) need only fit its
  -- type, and the session identifier can be any text: the document need not be one that
  -- rules.schema.json allows.
  pub parse_rules-Described :
      (inet : Inet) (rules : RuleSet) (root : Members json)
      → DescribesRules json inet rules root
      → parse_rules json inet (object root) ≡ got rules
  unfolding parse_rules
  parse_rules-Described inet rules root h =
      rw
        (
          at_string json laws root (text "sessionId") rules.session_id h.session_id,
          at_number json laws root (text "rulesetVersion") rules.version u64_mod h.version
              h.small_version,
          read_list-described root (text "pdrs") (DescribesPdr json inet) (parse_pdr json inet)
              h.pdrs (parse_pdr-Described inet) h.pdrs_found h.pdrs_described,
          read_list-described root (text "fars") (DescribesFar json) (parse_far json) h.fars
              parse_far-Described h.fars_found h.fars_described,
          read_list-described root (text "qers") (DescribesQer json) (parse_qer json) h.qers
              (parse_qer-Described json laws) h.qers_found h.qers_described,
          read_list-described root (text "urrs") (DescribesUrr json) (parse_urr json) h.urrs
              (parse_urr-Described json laws) h.urrs_found h.urrs_described,
          h.pdrs_all,
          h.fars_all,
          h.qers_all,
          h.urrs_all,
        )
        refl
