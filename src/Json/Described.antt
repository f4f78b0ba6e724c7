-- ===== src/Json/Described.antt =====
-- What `parseRules` reads: the members that describe the rules of a rule set, and that the objects
-- with these members are read as those rules.
use upfpolicyengine.Common.{
  ◌<◌, ◌≡◌, refl, sym, ap, subst, ◌⊎◌, Option, none, some, List, [], ◌∷◌, All, map, WhenSome,
  if◌then◌else◌,
}
use upfpolicyengine.Common.Text.{Text, text, text_Eq, text_eq}
use upfpolicyengine.Types.{
  success, u8_mod, u32_mod, u64_mod, RuleId, GateStatus, opened, closed, FarAction, forward, drop,
  TunnelOperation, tunnel_none, add, remove,
}
use upfpolicyengine.Address.{Inet, PortRange, parse_prefix}
use upfpolicyengine.Rules.{Pdr, Far, Qer, Urr, RuleSet}
use upfpolicyengine.Json.Library.{Json, IsLawful, Read, got, find}
use upfpolicyengine.Json.Input.{
  u16_mod, when_present, port_range, rule_id, unsigned_at, unsigned_member, parse_qer, parse_urr,
}
use upfpolicyengine.Json.Output.{interface_name, protocol_name, tunnel_object}
use upfpolicyengine.Json.Roundtrip.{at_number, member_number}

abbrev pub optional {ℓ κ} : {A : Type ℓ} {V : Type κ} → (A → V) → Option A → Option V
optional w none = none
optional w (some a) = some (w a)

abbrev pub gate_name : GateStatus → Text
gate_name opened = text "OPEN"
gate_name closed = text "CLOSED"

abbrev pub action_name : FarAction → Text
action_name forward = text "FORWARD"
action_name drop = text "DROP"

abbrev pub operation_name : TunnelOperation → Text
operation_name add = text "ADD"
operation_name remove = text "REMOVE"
operation_name tunnel_none = text "NONE"

module _ (json : Json) where
  open json use {Value, number, string, array, object}

  abbrev pub Members : Type 0
  Members = List (Text × Value)

  abbrev pub number_id : RuleId → Value
  number_id id = number id.value

  abbrev pub range_object : PortRange → Value
  range_object r = object ((text "first", number r.first) ∷ (text "last", number r.last) ∷ [])

  abbrev pub SmallRange : PortRange → Type 0
  SmallRange r = (r.first < u16_mod) × (r.last < u16_mod)

  -- A PDR has its members under their names, the optional ones only if they are there. Its
  -- generation is not read.
  pub record DescribesPdr (inet : Inet) (pdr : Pdr) (ms : Members) : Type 0 where
    pub id : find (text "id") ms ≡ some (number pdr.id.value)
    pub small_id : pdr.id.value < u32_mod
    pub precedence : find (text "precedence") ms ≡ some (number pdr.precedence)
    pub small_precedence : pdr.precedence < u32_mod
    pub source :
        find (text "sourceInterface") ms ≡ some (string (interface_name pdr.source_interface))
    pub teid : find (text "teid") ms ≡ optional number pdr.teid
    pub small_teid : WhenSome pdr.teid (λ n. n < u32_mod)
    pub prefix : Text
    pub ue_prefix : find (text "uePrefix") ms ≡ some (string prefix)
    pub prefix_read : parse_prefix inet prefix ≡ success pdr.ue_prefix
    pub protocol : find (text "protocol") ms ≡ optional (λ p. string (protocol_name p)) pdr.protocol
    pub local_ports : find (text "localPorts") ms ≡ optional range_object pdr.local_ports
    pub small_local : WhenSome pdr.local_ports SmallRange
    pub remote_ports : find (text "remotePorts") ms ≡ optional range_object pdr.remote_ports
    pub small_remote : WhenSome pdr.remote_ports SmallRange
    pub qfi : find (text "qfi") ms ≡ optional number pdr.qfi
    pub small_qfi : WhenSome pdr.qfi (λ n. n < u8_mod)
    pub far_id : find (text "farId") ms ≡ some (number pdr.far_id.value)
    pub small_far_id : pdr.far_id.value < u32_mod
    pub qer_id : find (text "qerId") ms ≡ optional number_id pdr.qer_id
    pub small_qer_id : WhenSome pdr.qer_id (λ i. i.value < u32_mod)
    pub urr_id : find (text "urrId") ms ≡ optional number_id pdr.urr_id
    pub small_urr_id : WhenSome pdr.urr_id (λ i. i.value < u32_mod)
    pub generation : pdr.generation ≡ 1

  pub record DescribesFar (far : Far) (ms : Members) : Type 0 where
    pub id : find (text "id") ms ≡ some (number far.id.value)
    pub small_id : far.id.value < u32_mod
    pub action : find (text "action") ms ≡ some (string (action_name far.action))
    pub destination :
        find (text "destinationInterface") ms
        ≡ optional (λ i. string (interface_name i)) far.destination
    pub operation :
        (find (text "tunnelOperation") ms ≡ some (string (operation_name far.operation)))
        ⊎ ((find (text "tunnelOperation") ms ≡ none) × (far.operation ≡ tunnel_none))
    pub tunnel : find (text "tunnel") ms ≡ optional (tunnel_object json) far.tunnel
    pub small_tunnel : WhenSome far.tunnel (λ t. (t.teid < u32_mod) × (t.qfi < u8_mod))

  -- The QFI of a QER is not read.
  pub record DescribesQer (qer : Qer) (ms : Members) : Type 0 where
    pub id : find (text "id") ms ≡ some (number qer.id.value)
    pub small_id : qer.id.value < u32_mod
    pub gate : find (text "gate") ms ≡ some (string (gate_name qer.gate))
    pub rate : find (text "rateBitsPerSecond") ms ≡ some (number qer.rate_bits_per_second)
    pub small_rate : qer.rate_bits_per_second < u64_mod
    pub burst : find (text "burstBytes") ms ≡ some (number qer.burst_bytes)
    pub small_burst : qer.burst_bytes < u64_mod
    pub generation : find (text "generation") ms ≡ some (number qer.generation)
    pub small_generation : qer.generation < u32_mod
    pub qfi : qer.qfi ≡ none

  pub record DescribesUrr (urr : Urr) (ms : Members) : Type 0 where
    pub id : find (text "id") ms ≡ some (number urr.id.value)
    pub small_id : urr.id.value < u32_mod
    pub threshold : find (text "volumeThresholdBytes") ms ≡ some (number urr.volume_threshold_bytes)
    pub small_threshold : urr.volume_threshold_bytes < u64_mod
    pub generation : find (text "generation") ms ≡ some (number urr.generation)
    pub small_generation : urr.generation < u32_mod

  -- A document describes a rule set by its session, its version and an array for each kind of rule.
  pub record DescribesRules (inet : Inet) (rules : RuleSet) (root : Members) : Type 0 where
    pub session_id : find (text "sessionId") root ≡ some (string rules.session_id)
    pub version : find (text "rulesetVersion") root ≡ some (number rules.version)
    pub small_version : rules.version < u64_mod
    pub pdrs : List (Pdr × Members)
    pub pdrs_found : find (text "pdrs") root ≡ some (array (map (λ x. object x.1) pdrs))
    pub pdrs_described : All (λ x. DescribesPdr inet x.0 x.1) pdrs
    pub pdrs_all : map (λ x. x.0) pdrs ≡ rules.pdrs
    pub fars : List (Far × Members)
    pub fars_found : find (text "fars") root ≡ some (array (map (λ x. object x.1) fars))
    pub fars_described : All (λ x. DescribesFar x.0 x.1) fars
    pub fars_all : map (λ x. x.0) fars ≡ rules.fars
    pub qers : List (Qer × Members)
    pub qers_found : find (text "qers") root ≡ some (array (map (λ x. object x.1) qers))
    pub qers_described : All (λ x. DescribesQer x.0 x.1) qers
    pub qers_all : map (λ x. x.0) qers ≡ rules.qers
    pub urrs : List (Urr × Members)
    pub urrs_found : find (text "urrs") root ≡ some (array (map (λ x. object x.1) urrs))
    pub urrs_described : All (λ x. DescribesUrr x.0 x.1) urrs
    pub urrs_all : map (λ x. x.0) urrs ≡ rules.urrs

module _ (json : Json) (laws : IsLawful json) where
  open json use {Value, number, string, object, at, member, get_string}

  -- An optional member is read if it is there, and is absent if not.
  pub read_optional {ℓ} :
      {A : Type ℓ} (ms : Members json) (key : Text) (w : A → Value) (o : Option A) (r : Read A)
      → find key ms ≡ optional w o
      → ((a : A) → o ≡ some a → find key ms ≡ some (w a) → r ≡ got a)
      → when_present json (object ms) key r ≡ got o
  unfolding when_present
  read_optional ms key w none r e h = rw (laws.object_contains ms key, e) refl
  read_optional ms key w (some a) r e h = rw (laws.object_contains ms key, h a refl e, e) refl

  pub when {ℓ} :
      {A : Type ℓ} (P : A → Type 0) (o : Option A) (a : A) → WhenSome o P → o ≡ some a → P a
  when P o a h e = subst (λ x. WhenSome x P) e h

  pub read_id :
      (ms : Members json) (key : Text) (id : RuleId)
      → find key ms ≡ some (number id.value)
      → id.value < u32_mod
      → rule_id json (unsigned_at json (object ms) key u32_mod) ≡ got id
  unfolding rule_id
  read_id ms key id e small = rw (at_number json laws ms key id.value u32_mod e small) refl

  pub member_id :
      (ms : Members json) (key : Text) (id : RuleId)
      → find key ms ≡ some (number id.value)
      → id.value < u32_mod
      → rule_id json (unsigned_member json (object ms) key u32_mod) ≡ got id
  unfolding rule_id
  member_id ms key id e small = rw (member_number json laws ms key id.value u32_mod e small) refl

  pub parse_urr-Described :
      (urr : Urr) (ms : Members json)
      → DescribesUrr json urr ms
      → parse_urr json (object ms) ≡ got urr
  unfolding parse_urr
  parse_urr-Described urr ms h =
      rw
        (
          read_id ms (text "id") urr.id h.id h.small_id,
          at_number json laws ms (text "volumeThresholdBytes") urr.volume_threshold_bytes u64_mod
              h.threshold h.small_threshold,
          at_number json laws ms (text "generation") urr.generation u32_mod h.generation
              h.small_generation,
        )
        refl

  find-range_object :
      (r : PortRange)
      → (find (text "first") ((text "first", number r.first) ∷ (text "last", number r.last) ∷ [])
          ≡ some (number r.first))
        × (find (text "last") ((text "first", number r.first) ∷ (text "last", number r.last) ∷ [])
            ≡ some (number r.last))
  unfolding find text text_eq
  find-range_object r = (refl, refl)

  pub port_range-Described :
      (ms : Members json) (key : Text) (r : PortRange)
      → find key ms ≡ some (range_object json r)
      → SmallRange json r
      → port_range json (object ms) key ≡ got r
  unfolding port_range
  port_range-Described ms key r e (first, last) =
      let fields : Members json =
        (text "first", number r.first) ∷ (text "last", number r.last) ∷ [] in
      let (at_first, at_last) = find-range_object r in
      rw
        (
          laws.object_member ms key (range_object json r) e,
          member_number json laws fields (text "first") r.first u16_mod at_first first,
          member_number json laws fields (text "last") r.last u16_mod at_last last,
        )
        refl

  gate_of-name :
      (g : GateStatus)
      → (if json.equals (string (gate_name g)) (text "OPEN") then opened else closed) ≡ g
  unfolding text text_eq
  gate_of-name opened = rw (laws.string_equals (text "OPEN") (text "OPEN")) refl
  gate_of-name closed = rw (laws.string_equals (text "CLOSED") (text "OPEN")) refl

  pub parse_qer-Described :
      (qer : Qer) (ms : Members json)
      → DescribesQer json qer ms
      → parse_qer json (object ms) ≡ got qer
  unfolding parse_qer
  parse_qer-Described qer ms h =
      rw
        (
          read_id ms (text "id") qer.id h.id h.small_id,
          laws.object_at ms (text "gate") (string (gate_name qer.gate)) h.gate,
          at_number json laws ms (text "rateBitsPerSecond") qer.rate_bits_per_second u64_mod h.rate
              h.small_rate,
          at_number json laws ms (text "burstBytes") qer.burst_bytes u64_mod h.burst h.small_burst,
          at_number json laws ms (text "generation") qer.generation u32_mod h.generation
              h.small_generation,
          gate_of-name qer.gate,
        )
        (ap (λ q. got (record qer { qfi = q })) (sym h.qfi))
