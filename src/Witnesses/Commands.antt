-- ===== src/Witnesses/Commands.antt =====
-- The theorems on the command line and on the report, at commands that run a scenario and two files.
use upfpolicyengine.Common.{true, false, some, none, ◌≡◌, refl, List, [], ◌∷◌}
use upfpolicyengine.Common.Text.{Text, text, text_eq}
use upfpolicyengine.Types.{n6}
use upfpolicyengine.Decision.{
  PacketDecision, default_qer_decision, default_far_decision, default_urr_decision, forwarded_to_n6,
}
use upfpolicyengine.RunResult.{RunResult, default_result}
use upfpolicyengine.Json.Library.{find}
use upfpolicyengine.Json.Input.{parse_packets}
use upfpolicyengine.Json.Output.{packet_json, root_members}
use upfpolicyengine.Json.Lists.{parse_packets-packet_json}
use upfpolicyengine.Human.{render_human}
use upfpolicyengine.Human.Agreement.{SaysRun}
use upfpolicyengine.Human.Agreement.Decisions.{render_human-root_members}
use upfpolicyengine.Cli.{Options, default_options, parsed, parse_arguments, main}
use upfpolicyengine.Cli.Arguments.{arguments, parse_arguments-arguments}
use upfpolicyengine.Cli.Exits.{IsSound, AsksForJson, main-IsSound}
use upfpolicyengine.Cli.Scenario.{Ends, main-Ends}
use upfpolicyengine.Cli.Files.{Reports, main-Reports}
use upfpolicyengine.Witnesses.Documents.{
  string_node, trees-IsLawful, echo_inet, up, down, up-IsWritable, down-IsWritable,
}
use upfpolicyengine.Witnesses.Files.{
  parse_document, library, files, rules_document, packets_document, few_rules, read_rules,
  read_packets, parsed_rules,
}
use upfpolicyengine.Witnesses.Runs.{demo_inet}

abbrev listing : Options
listing = record default_options { scenario = text "--rules"; list = true }

parse_arguments-arguments_example :
    parse_arguments default_options (arguments listing) ≡ parsed listing
parse_arguments-arguments_example = parse_arguments-arguments listing

abbrev documents : List Text
documents = text "--rules" ∷ text "rules" ∷ text "--packets" ∷ text "packets" ∷ []

main-IsSound_example : IsSound (AsksForJson documents) (main library demo_inet files 0 documents)
unfolding text text_eq
main-IsSound_example =
    main-IsSound library demo_inet files 0 (record { network = refl; ue = refl; server = refl })
      documents

main-Ends_example :
    Ends library demo_inet files 0
      (text "overload")
      (main library demo_inet files 0 (text "--scenario" ∷ text "overload" ∷ []))
unfolding text text_eq
main-Ends_example =
    main-Ends library demo_inet files 0 (text "overload")
      (record { network = refl; ue = refl; server = refl })

main-Reports_example : Reports few_rules (text "r") (text "local-files") (up ∷ down ∷ []) (
    main library echo_inet files 0
      (text "--rules" ∷ text "rules" ∷ text "--packets" ∷ text "packets" ∷ []))
unfolding find text text_eq parse_packets packet_json
main-Reports_example =
    main-Reports library echo_inet files 0 (text "rules") (text "packets") rules_document
      packets_document few_rules (up ∷ down ∷ []) (text "r") (text "local-files") refl refl
      read_rules read_packets parsed_rules
      (parse_packets-packet_json library (trees-IsLawful parse_document) echo_inet (up ∷ down ∷ [])
        ((text "runId", string_node (text "r")) ∷ []) (up-IsWritable, (down-IsWritable, tt)))
      refl refl

abbrev decided : PacketDecision
decided = record {
  run_id = text "r";
  scenario_id = text "c";
  packet_id = up.packet_id;
  session_id = up.session_id;
  arrival_time_micros = up.arrival_time_micros;
  ingress = up.ingress;
  ruleset_version = 1;
  update_id = text "";
  candidates =
      record {
        pdr_id = 10;
        precedence = 1;
        matched = true;
        criteria =
            record {
              name = text "teid";
              applicable = true;
              matched = true;
              actual = text "1";
              expected = text "1";
            }
            ∷ [];
      }
      ∷ [];
  selected_pdr_id = 10;
  qer = record default_qer_decision {
    applicable = true;
    qer_id = 30;
    tokens_before = 1000;
    refill_bytes = 20;
    packet_charge_bytes = 100;
    tokens_after = 920;
    outcome = text "ALLOW";
  };
  far = default_far_decision;
  urr = default_urr_decision;
  terminal_result = forwarded_to_n6;
  sink = some n6;
  transformed_packet = none;
  observability_degraded = false;
}

-- A run with one decision.
abbrev named_run : RunResult
named_run = record default_result {
  run_id = text "r";
  scenario_id = text "c";
  decisions = decided ∷ [];
}

render_human-root_members_example :
    SaysRun library named_run
      (library.object (root_members library echo_inet named_run))
      (render_human named_run)
render_human-root_members_example =
    render_human-root_members library (trees-IsLawful parse_document) echo_inet named_run
