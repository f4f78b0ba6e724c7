-- ===== src/Json/Output.antt =====
-- `renderJson` and the documents that it is made of. An array that the source fills by `push_back`
-- is the array of what is pushed, an object of a braced list the object of its pairs.
use upfpolicyengine.Common.{
  ℕ, suc, ◌+◌, ◌%◌, Bool, Option, none, some, List, [], ◌∷◌, nat_eq, map, if◌then◌else◌,
}
use upfpolicyengine.Common.Text.{Text, text, is_empty}
use upfpolicyengine.Types.{
  Result, u64_mod, Interface, n3, n6, Interface_Eq, TransportProtocol, tcp, udp, icmp, icmpv6,
  GateStatus, opened, closed, FarAction, forward, drop, is_drop, ConvergenceStatus, empty,
  converged, divergent,
}
use upfpolicyengine.Address.{Inet, to_string}
use upfpolicyengine.Packet.{TunnelMetadata, Packet}
use upfpolicyengine.Decision.{CriterionResult, MatchCandidate, PacketDecision, terminal_result_name}
use upfpolicyengine.RunResult.{RunResult, disclaimer}
use upfpolicyengine.Json.Library.{Json}

-- `interfaceName`
abbrev pub interface_name : Interface → Text
interface_name n3 = text "N3"
interface_name n6 = text "N6"

abbrev pub protocol_name : TransportProtocol → Text
protocol_name tcp = text "TCP"
protocol_name udp = text "UDP"
protocol_name icmp = text "ICMP"
protocol_name icmpv6 = text "ICMPV6"

abbrev gate_name : GateStatus → Text
gate_name opened = text "OPEN"
gate_name closed = text "CLOSED"

abbrev pub action_name : FarAction → Text
action_name forward = text "FORWARD"
action_name drop = text "DROP"

abbrev convergence_name : ConvergenceStatus → Text
convergence_name converged = text "CONVERGED"
convergence_name empty = text "EMPTY"
convergence_name divergent = text "DIVERGENT"

module _ (json : Json) where
  open json use {Value, null, boolean, number, string, array, object, assign, dump}

  -- `present ? json(v) : json()`
  abbrev pub or_null : Bool → Value → Value
  or_null present v = if present then v else null

  -- `s.empty() ? json() : json(s)`
  abbrev pub text_or_null : Text → Value
  text_or_null s = if is_empty s then null else string s

  -- `n == 0 ? json() : json(n)`
  abbrev pub number_or_null : ℕ → Value
  number_or_null n = if nat_eq n 0 then null else number n

  abbrev pub tunnel_object : TunnelMetadata → Value
  tunnel_object t = object ((text "teid", number t.teid) ∷ (text "qfi", number t.qfi) ∷ [])

  -- `tunnelJson`
  abbrev pub tunnel_json : Option TunnelMetadata → Value
  tunnel_json none = null
  tunnel_json (some t) = tunnel_object t

  -- The pairs that `packetJson` starts with.
  abbrev pub packet_members : Inet → Packet → List (Text × Value)
  packet_members inet packet =
      (text "packetId", string packet.packet_id)
      ∷ (text "sessionId", string packet.session_id)
      ∷ (text "ingress", string (interface_name packet.ingress))
      ∷ (text "sourceIp", string (to_string inet packet.source_ip))
      ∷ (text "destinationIp", string (to_string inet packet.destination_ip))
      ∷ (text "protocol", string (protocol_name packet.protocol))
      ∷ (text "sourcePort", number packet.source_port)
      ∷ (text "destinationPort", number packet.destination_port)
      ∷ (text "payloadBytes", number packet.payload_bytes)
      ∷ (text "arrivalTimeMicros", number packet.arrival_time_micros)
      ∷ []

  -- `packetJson`
  unfoldable pub packet_json : Inet → Packet → Value
  packet_json inet packet =
      let value = object (packet_members inet packet) in
      elim packet.tunnel [
        | none ↦ value
        | some t ↦ assign value (text "tunnel") (tunnel_json (some t))
      ]

  abbrev pub criterion_json : CriterionResult → Value
  criterion_json item = object (
      (text "name", string item.name)
      ∷ (text "applicable", boolean item.applicable)
      ∷ (text "matched", or_null item.applicable (boolean item.matched))
      ∷ (text "actual", text_or_null item.actual)
      ∷ (text "expected", text_or_null item.expected)
      ∷ [])

  -- `candidateJson`
  unfoldable pub candidate_json : MatchCandidate → Value
  candidate_json candidate = object (
      (text "pdrId", number candidate.pdr_id)
      ∷ (text "matched", boolean candidate.matched)
      ∷ (text "criteria", array (map criterion_json candidate.criteria))
      ∷ [])

  abbrev pub not_applicable : Text
  not_applicable = text "NOT_APPLICABLE"

  unfoldable pub qer_json : PacketDecision → Value
  qer_json d =
      let applicable = d.qer.applicable in
      object (
        (text "qerId", or_null applicable (number d.qer.qer_id))
        ∷ (text "gate", string (if applicable then gate_name d.qer.gate else not_applicable))
        ∷ (text "tokensBefore", or_null applicable (number d.qer.tokens_before))
        ∷ (text "refillBytes", or_null applicable (number d.qer.refill_bytes))
        ∷ (text "packetChargeBytes", or_null applicable (number d.qer.packet_charge_bytes))
        ∷ (text "tokensAfter", or_null applicable (number d.qer.tokens_after))
        ∷ (text "outcome", string (if applicable then d.qer.outcome else not_applicable))
        ∷ [])

  unfoldable pub far_json : PacketDecision → Value
  far_json d =
      let applicable = d.far.applicable in
      object (
        (text "farId", or_null applicable (number d.far.far_id))
        ∷ (text "action", string (if applicable then action_name d.far.action else not_applicable))
        ∷ (
          text "destination",
          string (
              if applicable
              then (if is_drop d.far.action then text "NONE" else interface_name d.far.destination)
              else not_applicable),
        )
        ∷ (text "tunnelBefore", tunnel_json d.far.before)
        ∷ (text "tunnelAfter", tunnel_json d.far.after)
        ∷ [])

  unfoldable pub urr_json : PacketDecision → Value
  urr_json d =
      let applicable = d.urr.applicable in
      object (
        (text "urrId", or_null applicable (number d.urr.urr_id))
        ∷ (text "counted", boolean d.urr.counted)
        ∷ (text "packetsBefore", or_null applicable (number d.urr.packets_before))
        ∷ (text "packetsAfter", or_null applicable (number d.urr.packets_after))
        ∷ (text "bytesBefore", or_null applicable (number d.urr.bytes_before))
        ∷ (text "bytesAfter", or_null applicable (number d.urr.bytes_after))
        ∷ (text "thresholdReached", or_null applicable (boolean d.urr.threshold_reached))
        ∷ (text "usageReportId", text_or_null d.urr.report_id)
        ∷ [])

  abbrev pub sink_name : Option Interface → Text
  sink_name none = text "NONE"
  sink_name (some sink) = interface_name sink

  abbrev packet_or_null : Inet → Option Packet → Value
  packet_or_null inet none = null
  packet_or_null inet (some packet) = packet_json inet packet

  -- `decisionJson`
  unfoldable pub decision_json : Inet → PacketDecision → Value
  unfolding candidate_json qer_json far_json urr_json packet_json
  decision_json inet d = object (
      (text "packetId", string d.packet_id)
      ∷ (text "sessionId", string d.session_id)
      ∷ (text "arrivalTimeMicros", number d.arrival_time_micros)
      ∷ (text "ingress", string (interface_name d.ingress))
      ∷ (text "rulesetVersion", number d.ruleset_version)
      ∷ (text "updateId", text_or_null d.update_id)
      ∷ (text "candidates", array (map candidate_json d.candidates))
      ∷ (text "selectedPdrId", number_or_null d.selected_pdr_id)
      ∷ (text "qer", qer_json d)
      ∷ (text "far", far_json d)
      ∷ (text "urr", urr_json d)
      ∷ (text "terminalResult", string (terminal_result_name d.terminal_result))
      ∷ (text "sink", string (sink_name d.sink))
      ∷ (text "transformedPacket", packet_or_null inet d.transformed_packet)
      ∷ (text "observabilityDegraded", boolean d.observability_degraded)
      ∷ [])

  -- The event of the decision at a position.
  unfoldable pub event_json : RunResult → ℕ → PacketDecision → Value
  event_json result i d = object (
      (text "schemaVersion", string (text "1.0"))
      ∷ (text "runId", string result.run_id)
      ∷ (text "scenarioId", string result.scenario_id)
      ∷ (text "sequence", number ((i + 1) % u64_mod))
      ∷ (text "simulatedTimeMicros", number d.arrival_time_micros)
      ∷ (text "component", string (text "packet-pipeline"))
      ∷ (text "severity", string (text "INFO"))
      ∷ (text "kind", string (text "terminal-result"))
      ∷ (text "sessionId", string d.session_id)
      ∷ (text "packetId", string d.packet_id)
      ∷ (text "updateId", null)
      ∷ (text "rulesetVersion", number d.ruleset_version)
      ∷ (
        text "data",
        object ((text "terminalResult", string (terminal_result_name d.terminal_result)) ∷ []),
      )
      ∷ [])

  unfoldable pub report_json : PacketDecision → Value
  report_json d = object (
      (text "reportId", string d.urr.report_id)
      ∷ (text "sessionId", string d.session_id)
      ∷ (text "urrId", number d.urr.urr_id)
      ∷ (text "generation", number 1)
      ∷ (text "rulesetVersion", number d.ruleset_version)
      ∷ (text "packets", number d.urr.packets_after)
      ∷ (text "payloadBytes", number d.urr.bytes_after)
      ∷ (text "thresholdBytes", number d.urr.bytes_after)
      ∷ [])

  -- What the loop over the decisions from position `i` on pushes back into the two arrays.
  unfoldable pub event_list : RunResult → ℕ → List PacketDecision → List Value
  unfolding event_json
  event_list result i [] = []
  event_list result i (d ∷ ds) = event_json result i d ∷ event_list result (suc i) ds

  unfoldable pub report_list : List PacketDecision → List Value
  unfolding report_json
  report_list [] = []
  report_list (d ∷ ds) =
      let rest = report_list ds in if is_empty d.urr.report_id then rest else report_json d ∷ rest

  abbrev state_json : RunResult → Value
  state_json result = object (
      (text "intendedVersion", number_or_null result.intended_version)
      ∷ (text "appliedVersion", number_or_null result.applied_version)
      ∷ (text "activeVersion", number_or_null result.active_version)
      ∷ (text "convergence", string (convergence_name result.convergence))
      ∷ [])

  -- The members of the root, in the order in which they are assigned first.
  unfoldable pub root_members : Inet → RunResult → List (Text × Value)
  unfolding decision_json event_list report_list packet_json
  root_members inet result =
      (text "schemaVersion", string (text "1.0"))
      ∷ (text "runId", string result.run_id)
      ∷ (text "scenarioId", string result.scenario_id)
      ∷ (text "disclaimer", string disclaimer)
      ∷ (text "decisions", array (map (decision_json inet) result.decisions))
      ∷ (text "events", array (event_list result 0 result.decisions))
      ∷ (text "usageReports", array (report_list result.decisions))
      ∷ (text "n3Sink", array (map (packet_json inet) result.n3_sink))
      ∷ (text "n6Sink", array (map (packet_json inet) result.n6_sink))
      ∷ (text "state", state_json result)
      ∷ (text "observabilityDegraded", boolean result.observability_degraded)
      ∷ (text "droppedEventCount", number result.dropped_events)
      ∷ []

  -- `renderJson`; `failure` is an exception of `dump`.
  unfoldable pub render_json : Inet → RunResult → Result Text
  unfolding root_members
  render_json inet result = dump (object (root_members inet result))
