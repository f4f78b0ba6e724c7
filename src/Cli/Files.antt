-- ===== src/Cli/Files.antt =====
-- `main` on `--rules FILE --packets FILE`.
use upfpolicyengine.Common.{
  ℕ, ◌≡◌, refl, sym, subst, ◌⊎◌, inl, inr, false, Option, List, [], ◌∷◌, ◌++◌, map,
}
use upfpolicyengine.Common.Text.{Text, text, text_eq, is_empty}
use upfpolicyengine.Types.{success, default_limits}
use upfpolicyengine.Address.{Inet}
use upfpolicyengine.Packet.{Packet}
use upfpolicyengine.Rules.{RuleSet}
use upfpolicyengine.Validation.Accepts.{IsAccepted}
use upfpolicyengine.Pipeline.Identity.{identity}
use upfpolicyengine.RunResult.{RunResult}
use upfpolicyengine.Json.Library.{Json, got}
use upfpolicyengine.Json.Input.{read_json, parse_rules, parse_packets}
use upfpolicyengine.Json.RunFiles.{run_files}
use upfpolicyengine.Json.Complete.{asked, Ends, run_files-Ends}
use upfpolicyengine.Human.{render_human}
use upfpolicyengine.Cli.{
  Options, default_options, Exit, exited, line_break, show, run_documents, run_options,
  parse_arguments, main,
}

-- With acceptable rules the report of a run with a decision for each packet, and with other rules an
-- error.
abbrev pub Reports : RuleSet → Text → Text → List Packet → Exit → Type 0
Reports rules run_id scenario_id packets exit =
    (IsAccepted rules default_limits
      × (result : RunResult) × (exit ≡ exited 0 (render_human result) [])
      × (map identity result.decisions ≡ map (asked run_id scenario_id rules.version) packets))
    ⊎ ((¬ IsAccepted rules default_limits)
        × (error : Text) × (exit ≡ exited 4 [] (error ++ line_break)))

module _ (json : Json) (inet : Inet) (files : Text → Option Text) (arrival : ℕ) where
  abbrev documents : Text → Text → Options
  documents rules packets = record default_options { rules = rules; packets = packets }

  main-documents :
      (c c' : ℕ) (rules packets : Text)
      → main json inet files arrival
          (text "--rules" ∷ (c ∷ rules) ∷ text "--packets" ∷ (c' ∷ packets) ∷ [])
        ≡ run_documents json inet files arrival (documents (c ∷ rules) (c' ∷ packets))
  unfolding main parse_arguments run_options text text_eq
  main-documents c c' rules packets = refl

  show_human :
      (rules packets : Text) (result : RunResult)
      → show json inet files arrival (documents rules packets) result
        ≡ exited 0 (render_human result) []
  unfolding show text text_eq
  show_human rules packets result = refl

  documents-Reports :
      (rules_path packets_path : Text) (rules : RuleSet) (packets : List Packet)
      (run_id scenario_id : Text)
      → Ends inet rules
          (run_files json inet files rules_path packets_path)
          run_id
          scenario_id
          packets
      → Reports rules run_id scenario_id packets
          (run_documents json inet files arrival (documents rules_path packets_path))
  unfolding run_documents
  documents-Reports rules_path packets_path rules packets run_id scenario_id
        (inl (accepted, (result, e, ids, run, scenario, intended, applied, active, convergence))) =
      inl (accepted, result, rw (run_documents, e) (show_human rules_path packets_path result), ids)
  documents-Reports rules_path packets_path rules packets run_id scenario_id
        (inr (refused, (error, e))) =
      inr (refused, error, rw (run_documents, e) refl)

  -- Where both named files can be read, a rule set and packets are read from them, and the second
  -- document names the run and the scenario as strings or not at all: with rules that are acceptable
  -- for the default limits, the program exits with 0 and the report of a run with one decision for
  -- each packet, in their order, whatever the decisions are (the README gives 5 for an arithmetic
  -- failure, but an ARITHMETIC_ERROR is a decision as any other), and with other rules it exits
  -- with 4 and an error.
  pub main-Reports :
      (rules_path packets_path : Text) (rules_json packets_json : json.Value) (rules : RuleSet)
      (packets : List Packet) (run_id scenario_id : Text)
      → is_empty rules_path ≡ false
      → is_empty packets_path ≡ false
      → read_json json files rules_path ≡ success rules_json
      → read_json json files packets_path ≡ success packets_json
      → parse_rules json inet rules_json ≡ got rules
      → parse_packets json inet packets_json ≡ got packets
      → json.value_or packets_json (text "runId") (text "file-run") ≡ success run_id
      → json.value_or packets_json (text "scenarioId") (text "local-files") ≡ success scenario_id
      → Reports rules run_id scenario_id packets (
          main json inet files arrival
            (text "--rules" ∷ rules_path ∷ text "--packets" ∷ packets_path ∷ []))
  main-Reports [] packets_path rules_json packets_json rules packets run_id scenario_id named named'
        r r' p p' runs scenarios =
      cc named
  main-Reports (c ∷ path) [] rules_json packets_json rules packets run_id scenario_id named named' r
        r' p p' runs scenarios =
      cc named'
  main-Reports (c ∷ path) (c' ∷ path') rules_json packets_json rules packets run_id scenario_id
        named named' r r' p p' runs scenarios =
      subst (Reports rules run_id scenario_id packets) (sym (main-documents c c' path path')) (
        documents-Reports (c ∷ path) (c' ∷ path') rules packets run_id scenario_id (
          run_files-Ends inet rules json packets_json run_id scenario_id runs scenarios files
            (c ∷ path) (c' ∷ path') rules_json packets r r' p p'))
