-- ===== src/Human/Agreement/Parts.antt =====
-- The parts of a decision in the report of `renderHuman` and in the document of `renderJson`.
use upfpolicyengine.Common.{
  ℕ, ◌≡◌, ◌⊎◌, refl, ap, ◌∙◌, Bool, true, false, inl, inr, Option, none, some, List, [], ◌∷◌, ◌++◌,
  map, nat_eq, if◌then◌else◌,
}
use upfpolicyengine.Common.Text.{Text, text, text_eq, is_empty}
use upfpolicyengine.Common.Decimal.{decimal}
use upfpolicyengine.Types.{Interface, n3, n6, FarAction, forward, drop}
use upfpolicyengine.Decision.{CriterionResult, MatchCandidate, PacketDecision}
use upfpolicyengine.Json.Library.{Json, IsLawful, got, find}
use upfpolicyengine.Json.Output.{
  interface_name, action_name, or_null, text_or_null, number_or_null, criterion_json,
  candidate_json, not_applicable, sink_name,
}
use upfpolicyengine.Human.{
  interface_text, action_text, match_text, criterion_outcome, sink_text, selected_text, report_text,
}
use upfpolicyengine.Human.Report.{concat_map, criterion_line, candidate_lines}
use upfpolicyengine.Human.Agreement.{
  Names, Counts, Flags, IsNull, SaysCriterion, not_asked, meets, misses, SaysCriteria, no_criteria,
  next_criterion, SaysMatch, matches, differs, SaysCandidates, no_candidates, next_candidate,
  SaysQer, charged, no_qer, SaysUrr, metered, no_urr,
}

pub interface_same : (i : Interface) → interface_name i ≡ interface_text i
interface_same n3 = refl
interface_same n6 = refl

action_same : (a : FarAction) → action_name a ≡ action_text a
action_same forward = refl
action_same drop = refl

module _ (json : Json) (laws : IsLawful json) where
  open json use {Value, null, boolean, number, string, array, object, at}

  criterion_says :
      (document : Value) (applicable matched : Bool)
      → at document (text "matched") ≡ got (or_null json applicable (boolean matched))
      → SaysCriterion json document (
          if applicable
          then (if matched then text "MATCH" else text "MISMATCH")
          else text "NOT_APPLICABLE")
  criterion_says document false matched e = not_asked e
  criterion_says document true true e = meets e
  criterion_says document true false e = misses e

  pub criteria_say :
      (cs : List CriterionResult)
      → SaysCriteria json (map (criterion_json json) cs) (map criterion_line cs)
  unfolding find text text_eq
  criteria_say [] = no_criteria
  criteria_say (c ∷ cs) =
      next_criterion (criterion_json json c) c.name (criterion_outcome c)
        (laws.object_at _ (text "name") _ refl)
        (criterion_says _ c.applicable c.matched (laws.object_at _ (text "matched") _ refl))
        (criteria_say cs)

  match_says :
      (document : Value) (matched : Bool)
      → Flags json document (text "matched") matched
      → SaysMatch json document (match_text matched)
  match_says document true e = matches e
  match_says document false e = differs e

  pub candidates_say :
      (cs : List MatchCandidate)
      → SaysCandidates json (map (candidate_json json) cs) (concat_map candidate_lines cs)
  unfolding candidate_json find text text_eq
  candidates_say [] = no_candidates
  candidates_say (c ∷ cs) =
      next_candidate (candidate_json json c) (decimal c.pdr_id) (match_text c.matched)
        (c.pdr_id, laws.object_at _ (text "pdrId") _ refl, refl)
        (match_says _ c.matched (laws.object_at _ (text "matched") _ refl))
        (laws.object_at _ (text "criteria") _ refl) (criteria_say c.criteria) (candidates_say cs)

  pub selected_says :
      (document : Value) (d : PacketDecision) (is_none : Bool)
      → nat_eq d.selected_pdr_id 0 ≡ is_none
      → at document (text "selectedPdrId") ≡ got (number_or_null json d.selected_pdr_id)
      → (IsNull json document (text "selectedPdrId") × (selected_text d ≡ text "none"))
        ⊎ Counts json document (text "selectedPdrId") (selected_text d)
  selected_says document d true e there = inl (there ∙ simp e refl, simp e refl)
  selected_says document d false e there = inr (d.selected_pdr_id, there ∙ simp e refl, simp e refl)

  pub report_says :
      (document : Value) (d : PacketDecision) (is_none : Bool)
      → is_empty d.urr.report_id ≡ is_none
      → at document (text "usageReportId") ≡ got (text_or_null json d.urr.report_id)
      → (IsNull json document (text "usageReportId") × (report_text d ≡ text "none"))
        ⊎ Names json document (text "usageReportId") (report_text d)
  report_says document d true e there = inl (there ∙ simp e refl, simp e refl)
  report_says document d false e there = inr (there ∙ simp e refl)

  pub sink_says :
      (document : Value) (sink : Option Interface)
      → Names json document (text "sink") (sink_name json sink)
      → (Names json document (text "sink") (text "NONE") × (sink_text sink ≡ text "none"))
        ⊎ Names json document (text "sink") (sink_text sink)
  sink_says document none there = inl (there, refl)
  sink_says document (some i) there = inr (there ∙ ap (λ w. got (string w)) (interface_same i))

  -- A number of an evaluation that may not be applicable.
  abbrev Shows : Value → Bool → Text → ℕ → Type 0
  Shows document applicable key n = at document key ≡ got (or_null json applicable (number n))

  pub qer_says :
      (document : Value) (applicable : Bool) (outcome : Text) (before refill charge after : ℕ)
      → Names json document (text "outcome") (if applicable then outcome else not_applicable json)
      → Shows document applicable (text "tokensBefore") before
      → Shows document applicable (text "refillBytes") refill
      → Shows document applicable (text "packetChargeBytes") charge
      → Shows document applicable (text "tokensAfter") after
      → SaysQer json document applicable (
          outcome
          ++ (if applicable
              then text " (tokens "
                ++ decimal before
                ++ text " + "
                ++ decimal refill
                ++ text " - "
                ++ decimal charge
                ++ text " = "
                ++ decimal after
                ++ text ")"
              else []))
  qer_says document true outcome before refill charge after o b r c a =
      charged outcome (decimal before) (decimal refill) (decimal charge) (decimal after) o
        (before, b, refl) (refill, r, refl) (charge, c, refl) (after, a, refl)
  qer_says document false outcome before refill charge after o b r c a = no_qer _ o b r c a

  pub far_says :
      (document : Value) (applicable : Bool) (action : FarAction)
      → Names json document
          (text "action")
          (if applicable then action_name action else not_applicable json)
      → Names json document
          (text "action")
          (if applicable then action_text action else text "NOT_APPLICABLE")
  far_says document true action there = there ∙ ap (λ w. got (string w)) (action_same action)
  far_says document false action there = there

  pub urr_says :
      (document : Value) (applicable : Bool) (packets packets' bytes bytes' : ℕ)
      → Shows document applicable (text "packetsBefore") packets
      → Shows document applicable (text "packetsAfter") packets'
      → Shows document applicable (text "bytesBefore") bytes
      → Shows document applicable (text "bytesAfter") bytes'
      → SaysUrr json document applicable
          (decimal packets ++ text " -> " ++ decimal packets')
          (decimal bytes ++ text " -> " ++ decimal bytes')
  urr_says document true packets packets' bytes bytes' p p' b b' =
      metered (decimal packets) (decimal packets') (decimal bytes) (decimal bytes')
        (packets, p, refl) (packets', p', refl) (bytes, b, refl) (bytes', b', refl)
  urr_says document false packets packets' bytes bytes' p p' b b' = no_urr _ _ p p' b b'
