-- ===== src/Witnesses/Files.antt =====
-- The theorem on runs of files, at two small documents.
use upfpolicyengine.Common.{◌≡◌, refl, none, some, [], ◌∷◌, map, ◌==◌, if◌then◌else◌, Option}
use upfpolicyengine.Common.Text.{Text, text, text_Eq, text_eq}
use upfpolicyengine.Types.{Result, success, failure, opened}
use upfpolicyengine.Rules.{RuleSet}
use upfpolicyengine.Json.Library.{Json, got, find, nth}
use upfpolicyengine.Json.Input.{
  read_json, read_each, read_list, parse_rules, parse_qer, rule_id, parse_packets,
}
use upfpolicyengine.Json.Output.{packet_json}
use upfpolicyengine.Json.RunFiles.{run_files}
use upfpolicyengine.Json.Complete.{Ends, run_files-Ends}
use upfpolicyengine.Json.Lists.{parse_packets-packet_json}
use upfpolicyengine.Witnesses.Documents.{
  Node, string_node, number_node, trees, trees-IsLawful, echo_inet, up, down, up-IsWritable,
  down-IsWritable,
}

abbrev pub silent : Json
silent = trees (λ s. failure s)

abbrev pub qer_document : Node
qer_document = silent.object (
    (text "id", number_node 30)
    ∷ (text "gate", string_node (text "OPEN"))
    ∷ (text "rateBitsPerSecond", number_node 10000000)
    ∷ (text "burstBytes", number_node 20000)
    ∷ (text "generation", number_node 1)
    ∷ [])

abbrev pub rules_document : Node
rules_document = silent.object (
    (text "sessionId", string_node (text "s"))
    ∷ (text "rulesetVersion", number_node 3)
    ∷ (text "pdrs", silent.array [])
    ∷ (text "fars", silent.array [])
    ∷ (text "qers", silent.array (qer_document ∷ []))
    ∷ (text "urrs", silent.array [])
    ∷ [])

abbrev pub few_rules : RuleSet
few_rules = record {
  session_id = text "s";
  version = 3;
  pdrs = [];
  fars = [];
  qers =
      record {
        id = record { value = 30 };
        gate = opened;
        rate_bits_per_second = 10000000;
        burst_bytes = 20000;
        qfi = none;
        generation = 1;
      }
      ∷ [];
  urrs = [];
}

abbrev pub packets_document : Node
packets_document = silent.object (
    (text "packets", silent.array (map (packet_json silent echo_inet) (up ∷ down ∷ [])))
    ∷ (text "runId", string_node (text "r"))
    ∷ [])

-- The content of a file is the name of its document.
abbrev pub parse_document : Text → Result Node
parse_document content =
    if content == text "rules" then success rules_document else success packets_document

abbrev pub library : Json
library = trees parse_document

abbrev pub files : Text → Option Text
files path = some path

pub read_rules : read_json library files (text "rules") ≡ success rules_document
unfolding read_json text text_eq
read_rules = refl

pub read_packets : read_json library files (text "packets") ≡ success packets_document
unfolding read_json text text_eq
read_packets = refl

pub parsed_rules : parse_rules library echo_inet rules_document ≡ got few_rules
unfolding parse_rules read_list read_each parse_qer rule_id find nth text text_eq
parsed_rules = refl

run_files-Ends_example :
    Ends echo_inet few_rules
      (run_files library echo_inet files (text "rules") (text "packets"))
      (text "r")
      (text "local-files")
      (up ∷ down ∷ [])
unfolding find text text_eq parse_packets packet_json
run_files-Ends_example =
    run_files-Ends echo_inet few_rules library packets_document (text "r") (text "local-files") refl
      refl files (text "rules") (text "packets") rules_document (up ∷ down ∷ []) read_rules
      read_packets parsed_rules
      (parse_packets-packet_json library (trees-IsLawful parse_document) echo_inet (up ∷ down ∷ [])
        ((text "runId", string_node (text "r")) ∷ []) (up-IsWritable, (down-IsWritable, tt)))
