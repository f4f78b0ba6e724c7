-- ===== src/Human/Report.antt =====
-- The report of `renderHuman` as its lines.
use mathlib.Core.List.{append_assoc, append-nil}
use upfpolicyengine.Common.{ℕ, ◌≡◌, refl, sym, ap, ◌∙◌, List, [], ◌∷◌, ◌++◌, map}
use upfpolicyengine.Common.Text.{Text, text}
use upfpolicyengine.Common.Decimal.{decimal}
use upfpolicyengine.Decision.{CriterionResult, MatchCandidate, PacketDecision, terminal_result_name}
use upfpolicyengine.RunResult.{RunResult, disclaimer}
use upfpolicyengine.Human.{
  end_line, interface_text, match_text, criterion_outcome, sink_text, write_criterion,
  write_criteria, write_candidate, write_candidates, write_head, tokens_text, selected_text,
  far_text, report_text, write_tail, write_decisions, render_human,
}

-- Each line with its line break.
abbrev pub unlines : List Text → Text
unlines [] = []
unlines (l ∷ ls) = l ++ end_line ∷ unlines ls

abbrev pub criterion_line : CriterionResult → Text
criterion_line c = text "    " ++ c.name ++ text ": " ++ criterion_outcome c

abbrev pub candidate_lines : MatchCandidate → List Text
candidate_lines c =
    (text "  PDR " ++ decimal c.pdr_id ++ text ": " ++ match_text c.matched)
    ∷ map criterion_line c.criteria

abbrev pub concat_map {ℓ} : {A : Type ℓ} → (A → List Text) → List A → List Text
concat_map f [] = []
concat_map f (a ∷ later) = f a ++ concat_map f later

abbrev head_lines : PacketDecision → List Text
head_lines d =
    (text "Packet: " ++ d.packet_id)
    ∷ (text "Session: " ++ d.session_id)
    ∷ (text "Ingress: " ++ interface_text d.ingress)
    ∷ (text "Simulated time: " ++ decimal d.arrival_time_micros)
    ∷ (text "Ruleset version: " ++ decimal d.ruleset_version)
    ∷ text "PDR candidates:"
    ∷ []

abbrev tail_lines : PacketDecision → List Text
tail_lines d =
    (text "PDR: " ++ selected_text d)
    ∷ (text "QER: " ++ d.qer.outcome ++ tokens_text d)
    ∷ (text "FAR: " ++ far_text d)
    ∷ (text "URR packets: "
        ++ decimal d.urr.packets_before
        ++ text " -> "
        ++ decimal d.urr.packets_after)
    ∷ (text "URR bytes: " ++ decimal d.urr.bytes_before ++ text " -> " ++ decimal d.urr.bytes_after)
    ∷ (text "URR report: " ++ report_text d)
    ∷ (text "Sink: " ++ sink_text d.sink)
    ∷ (text "Result: " ++ terminal_result_name d.terminal_result)
    ∷ []

abbrev pub decision_lines : PacketDecision → List Text
decision_lines d = head_lines d ++ concat_map candidate_lines d.candidates ++ tail_lines d

-- The lines of a report.
abbrev pub report_lines : RunResult → List Text
report_lines result =
    disclaimer
    ∷ (text "Run: " ++ result.run_id)
    ∷ (text "Scenario: " ++ result.scenario_id)
    ∷ concat_map decision_lines result.decisions

unlines-append : (ls ms : List Text) → unlines (ls ++ ms) ≡ unlines ls ++ unlines ms
unlines-append [] ms = refl
unlines-append (l ∷ ls) ms =
    ap (λ t. l ++ end_line ∷ t) (unlines-append ls ms)
    ∙ sym (append_assoc l (end_line ∷ unlines ls) (unlines ms))

joined :
    (out : Text) (ls ms : List Text) → (out ++ unlines ls) ++ unlines ms ≡ out ++ unlines (ls ++ ms)
joined out ls ms =
    append_assoc out (unlines ls) (unlines ms) ∙ ap (λ t. out ++ t) (sym (unlines-append ls ms))

tail_written : (out : Text) (d : PacketDecision) → write_tail out d ≡ out ++ unlines (tail_lines d)
unfolding write_tail
tail_written out d = simp (append_assoc {A = ℕ}) refl

head_written : (out : Text) (d : PacketDecision) → write_head out d ≡ out ++ unlines (head_lines d)
unfolding write_head
head_written out d = simp (append_assoc {A = ℕ}) refl

criteria_written :
    (out : Text) (cs : List CriterionResult)
    → write_criteria out cs ≡ out ++ unlines (map criterion_line cs)
unfolding write_criteria
criteria_written out [] = sym (append-nil out)
criteria_written out (c ∷ cs) =
    criteria_written (write_criterion out c) cs ∙ simp (append_assoc {A = ℕ}) refl

candidate_written :
    (out : Text) (c : MatchCandidate)
    → write_criteria (write_candidate out c) c.criteria ≡ out ++ unlines (candidate_lines c)
candidate_written out c =
    criteria_written (write_candidate out c) c.criteria ∙ simp (append_assoc {A = ℕ}) refl

candidates_written :
    (out : Text) (cs : List MatchCandidate)
    → write_candidates out cs ≡ out ++ unlines (concat_map candidate_lines cs)
unfolding write_candidates
candidates_written out [] = sym (append-nil out)
candidates_written out (c ∷ cs) =
    let later = unlines (concat_map candidate_lines cs) in
    candidates_written (write_criteria (write_candidate out c) c.criteria) cs
    ∙ (ap (λ t. t ++ later) (candidate_written out c)
        ∙ joined out (candidate_lines c) (concat_map candidate_lines cs))

decision_written :
    (out : Text) (d : PacketDecision)
    → write_tail (write_candidates (write_head out d) d.candidates) d
      ≡ out ++ unlines (decision_lines d)
decision_written out d =
    let candidates = concat_map candidate_lines d.candidates in
    tail_written (write_candidates (write_head out d) d.candidates) d
    ∙ (ap (λ t. t ++ unlines (tail_lines d))
          (candidates_written (write_head out d) d.candidates
            ∙ ap (λ t. t ++ unlines candidates) (head_written out d))
        ∙ (ap (λ t. t ++ unlines (tail_lines d)) (joined out (head_lines d) candidates)
            ∙ joined out (head_lines d ++ candidates) (tail_lines d)))

decisions_written :
    (out : Text) (ds : List PacketDecision)
    → write_decisions out ds ≡ out ++ unlines (concat_map decision_lines ds)
unfolding write_decisions
decisions_written out [] = sym (append-nil out)
decisions_written out (d ∷ ds) =
    decisions_written (write_tail (write_candidates (write_head out d) d.candidates) d) ds
    ∙ (ap (λ t. t ++ unlines (concat_map decision_lines ds)) (decision_written out d)
        ∙ joined out (decision_lines d) (concat_map decision_lines ds))

-- The report for people is the disclaimer, the run, the scenario, and for each decision in order its
-- head, each candidate with its criteria, and what the rules did, one line for each.
pub render_human-lines : (result : RunResult) → render_human result ≡ unlines (report_lines result)
unfolding render_human
render_human-lines result = decisions_written _ result.decisions ∙ simp (append_assoc {A = ℕ}) refl
