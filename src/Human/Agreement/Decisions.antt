-- ===== src/Human/Agreement/Decisions.antt =====
-- That the report of `renderHuman` and the document of `renderJson` say the same of each decision.
use upfpolicyengine.Common.{refl, ap, ◌∙◌, List, [], ◌∷◌, ◌++◌, map}
use upfpolicyengine.Common.Text.{text, text_eq}
use upfpolicyengine.Common.Decimal.{decimal}
use upfpolicyengine.Address.{Inet}
use upfpolicyengine.Decision.{PacketDecision, terminal_result_name}
use upfpolicyengine.RunResult.{RunResult, disclaimer}
use upfpolicyengine.Json.Library.{Json, IsLawful, got, find}
use upfpolicyengine.Json.Output.{
  candidate_json, qer_json, far_json, urr_json, decision_json, root_members,
}
use upfpolicyengine.Human.{
  interface_text, sink_text, tokens_text, selected_text, far_text, report_text, render_human,
}
use upfpolicyengine.Human.Report.{concat_map, candidate_lines, decision_lines, render_human-lines}
use upfpolicyengine.Human.Agreement.{
  SaysDecision, SaysDecisions, no_decisions, next_decision, SaysRun,
}
use upfpolicyengine.Human.Agreement.Parts.{
  interface_same, candidates_say, selected_says, report_says, sink_says, qer_says, far_says,
  urr_says,
}

module _ (json : Json) (laws : IsLawful json) where
  open json use {object, string}

  decision_says :
      (inet : Inet) (d : PacketDecision)
      → SaysDecision json d (decision_json json inet d) (decision_lines d)
  unfolding decision_json qer_json far_json urr_json find text text_eq
  decision_says inet d = record {
    packet = d.packet_id;
    session = d.session_id;
    ingress = interface_text d.ingress;
    time = decimal d.arrival_time_micros;
    version = decimal d.ruleset_version;
    candidates = concat_map candidate_lines d.candidates;
    selected = selected_text d;
    qer = d.qer.outcome ++ tokens_text d;
    far = far_text d;
    packets = decimal d.urr.packets_before ++ text " -> " ++ decimal d.urr.packets_after;
    bytes = decimal d.urr.bytes_before ++ text " -> " ++ decimal d.urr.bytes_after;
    report = report_text d;
    sink = sink_text d.sink;
    result = terminal_result_name d.terminal_result;
    candidate_documents = map (candidate_json json) d.candidates;
    qer_document = qer_json json d;
    far_document = far_json json d;
    urr_document = urr_json json d;
    written = refl;
    packet_says = laws.object_at _ (text "packetId") _ refl;
    session_says = laws.object_at _ (text "sessionId") _ refl;
    ingress_says =
        laws.object_at _ (text "ingress") _ refl
        ∙ ap (λ w. got (string w)) (interface_same d.ingress);
    time_says = (d.arrival_time_micros, laws.object_at _ (text "arrivalTimeMicros") _ refl, refl);
    version_says = (d.ruleset_version, laws.object_at _ (text "rulesetVersion") _ refl, refl);
    candidates_are = laws.object_at _ (text "candidates") _ refl;
    candidates_say = candidates_say json laws d.candidates;
    selected_says =
        selected_says json laws _ d _ refl (laws.object_at _ (text "selectedPdrId") _ refl);
    qer_is = laws.object_at _ (text "qer") _ refl;
    qer_says =
        qer_says json laws _ d.qer.applicable d.qer.outcome d.qer.tokens_before d.qer.refill_bytes
          d.qer.packet_charge_bytes d.qer.tokens_after (laws.object_at _ (text "outcome") _ refl)
          (laws.object_at _ (text "tokensBefore") _ refl)
          (laws.object_at _ (text "refillBytes") _ refl)
          (laws.object_at _ (text "packetChargeBytes") _ refl)
          (laws.object_at _ (text "tokensAfter") _ refl);
    far_is = laws.object_at _ (text "far") _ refl;
    far_says =
        far_says json laws _ d.far.applicable d.far.action
          (laws.object_at _ (text "action") _ refl);
    urr_is = laws.object_at _ (text "urr") _ refl;
    urr_says =
        urr_says json laws _ d.urr.applicable d.urr.packets_before d.urr.packets_after
          d.urr.bytes_before d.urr.bytes_after (laws.object_at _ (text "packetsBefore") _ refl)
          (laws.object_at _ (text "packetsAfter") _ refl)
          (laws.object_at _ (text "bytesBefore") _ refl)
          (laws.object_at _ (text "bytesAfter") _ refl);
    report_says = report_says json laws _ d _ refl (laws.object_at _ (text "usageReportId") _ refl);
    sink_says = sink_says json laws _ d.sink (laws.object_at _ (text "sink") _ refl);
    result_says = laws.object_at _ (text "terminalResult") _ refl;
  }

  decisions_say :
      (inet : Inet) (ds : List PacketDecision)
      → SaysDecisions json ds (map (decision_json json inet) ds) (concat_map decision_lines ds)
  decisions_say inet [] = no_decisions
  decisions_say inet (d ∷ ds) = next_decision d _ (decision_says inet d) (decisions_say inet ds)

  -- With a lawful library, the report for people and the JSON document that are rendered of a run say
  -- the same: of the run its notice and its identifiers; of each decision, in order, packet, session,
  -- ingress, time, version, each candidate with its outcome and each criterion with its own, the
  -- selected PDR, the action of the FAR, the usage report, the sink and the result; and, where they
  -- are applicable, the outcome and the tokens of the QER and the packets and bytes of the URR. Where
  -- they are not, the document has NOT_APPLICABLE and null, and nothing is said of the report's words.
  pub render_human-root_members :
      (inet : Inet) (result : RunResult)
      → SaysRun json result (object (root_members json inet result)) (render_human result)
  unfolding root_members find text text_eq
  render_human-root_members inet result = record {
    notice = disclaimer;
    run = result.run_id;
    scenario = result.scenario_id;
    documents = map (decision_json json inet) result.decisions;
    lines = concat_map decision_lines result.decisions;
    written = render_human-lines result;
    notice_says = laws.object_at _ (text "disclaimer") _ refl;
    run_says = laws.object_at _ (text "runId") _ refl;
    scenario_says = laws.object_at _ (text "scenarioId") _ refl;
    documents_are = laws.object_at _ (text "decisions") _ refl;
    decisions_say = decisions_say inet result.decisions;
  }
