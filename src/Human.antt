-- ===== src/Human.antt =====
-- src/adapters/human_output.cpp: the report of a run for people. The stream is the text that has
-- been written to it.
pub mod Report
pub mod Agreement
use upfpolicyengine.Common.{
  ℕ, Bool, true, false, Option, none, some, List, [], ◌∷◌, ◌++◌, nat_eq, if◌then◌else◌,
}
use upfpolicyengine.Common.Text.{Text, text, is_empty}
use upfpolicyengine.Common.Decimal.{decimal}
use upfpolicyengine.Types.{Interface, n3, n6, FarAction, forward, drop}
use upfpolicyengine.Decision.{CriterionResult, MatchCandidate, PacketDecision, terminal_result_name}
use upfpolicyengine.RunResult.{RunResult, disclaimer}

abbrev pub end_line : ℕ
end_line = 10

abbrev pub interface_text : Interface → Text
interface_text n3 = text "N3"
interface_text n6 = text "N6"

abbrev pub action_text : FarAction → Text
action_text forward = text "FORWARD"
action_text drop = text "DROP"

abbrev pub match_text : Bool → Text
match_text matched = if matched then text "MATCH" else text "NO_MATCH"

abbrev pub criterion_outcome : CriterionResult → Text
criterion_outcome criterion =
    if criterion.applicable
    then (if criterion.matched then text "MATCH" else text "MISMATCH")
    else text "NOT_APPLICABLE"

abbrev pub sink_text : Option Interface → Text
sink_text none = text "none"
sink_text (some sink) = interface_text sink

abbrev pub write_criterion : Text → CriterionResult → Text
write_criterion out criterion =
    out
    ++ text "    "
    ++ criterion.name
    ++ text ": "
    ++ criterion_outcome criterion
    ++ end_line ∷ []

-- The loop over the criteria of a candidate.
unfoldable pub write_criteria : Text → List CriterionResult → Text
write_criteria out [] = out
write_criteria out (criterion ∷ criteria) = write_criteria (write_criterion out criterion) criteria

abbrev pub write_candidate : Text → MatchCandidate → Text
write_candidate out candidate =
    out
    ++ text "  PDR "
    ++ decimal candidate.pdr_id
    ++ text ": "
    ++ match_text candidate.matched
    ++ end_line ∷ []

-- The loop over the candidates of a decision.
unfoldable pub write_candidates : Text → List MatchCandidate → Text
unfolding write_criteria
write_candidates out [] = out
write_candidates out (candidate ∷ candidates) =
    write_candidates (write_criteria (write_candidate out candidate) candidate.criteria) candidates

-- What is written of a decision before and behind its candidates.
unfoldable pub write_head : Text → PacketDecision → Text
write_head out d =
    out
    ++ text "Packet: "
    ++ d.packet_id
    ++ end_line ∷ text "Session: "
    ++ d.session_id
    ++ end_line ∷ text "Ingress: "
    ++ interface_text d.ingress
    ++ end_line ∷ text "Simulated time: "
    ++ decimal d.arrival_time_micros
    ++ end_line ∷ text "Ruleset version: "
    ++ decimal d.ruleset_version
    ++ end_line ∷ text "PDR candidates:"
    ++ end_line ∷ []

-- The tokens in parentheses, for a QER that is applicable.
abbrev pub tokens_text : PacketDecision → Text
tokens_text d =
    if d.qer.applicable
    then text " (tokens "
      ++ decimal d.qer.tokens_before
      ++ text " + "
      ++ decimal d.qer.refill_bytes
      ++ text " - "
      ++ decimal d.qer.packet_charge_bytes
      ++ text " = "
      ++ decimal d.qer.tokens_after
      ++ text ")"
    else []

abbrev pub selected_text : PacketDecision → Text
selected_text d = if nat_eq d.selected_pdr_id 0 then text "none" else decimal d.selected_pdr_id

abbrev pub far_text : PacketDecision → Text
far_text d = if d.far.applicable then action_text d.far.action else text "NOT_APPLICABLE"

abbrev pub report_text : PacketDecision → Text
report_text d = if is_empty d.urr.report_id then text "none" else d.urr.report_id

unfoldable pub write_tail : Text → PacketDecision → Text
write_tail out d =
    out
    ++ text "PDR: "
    ++ selected_text d
    ++ end_line ∷ text "QER: "
    ++ d.qer.outcome
    ++ tokens_text d
    ++ end_line ∷ text "FAR: "
    ++ far_text d
    ++ end_line ∷ text "URR packets: "
    ++ decimal d.urr.packets_before
    ++ text " -> "
    ++ decimal d.urr.packets_after
    ++ end_line ∷ text "URR bytes: "
    ++ decimal d.urr.bytes_before
    ++ text " -> "
    ++ decimal d.urr.bytes_after
    ++ end_line ∷ text "URR report: "
    ++ report_text d
    ++ end_line ∷ text "Sink: "
    ++ sink_text d.sink
    ++ end_line ∷ text "Result: "
    ++ terminal_result_name d.terminal_result
    ++ end_line ∷ []

-- The loop over the decisions.
unfoldable pub write_decisions : Text → List PacketDecision → Text
unfolding write_head write_candidates write_tail
write_decisions out [] = out
write_decisions out (d ∷ ds) =
    write_decisions (write_tail (write_candidates (write_head out d) d.candidates) d) ds

-- `renderHuman`
unfoldable pub render_human : RunResult → Text
unfolding write_decisions
render_human result =
    write_decisions
      (disclaimer
        ++ end_line ∷ text "Run: "
        ++ result.run_id
        ++ end_line ∷ text "Scenario: "
        ++ result.scenario_id
        ++ end_line ∷ [])
      result.decisions
