-- ===== src/Cli.antt =====
-- src/cli/main.cpp: the command line. What the program prints and the code that it exits with are
-- values; the files, the JSON library and the C library are parameters.
pub mod Arguments
pub mod Exits
pub mod Scenario
pub mod Files
use upfpolicyengine.Common.{
  ℕ, Bool, true, false, not, ◌&&◌, ◌||◌, Option, none, some, List, [], ◌∷◌, ◌++◌, ◌==◌,
  if◌then◌else◌,
}
use upfpolicyengine.Common.Text.{Text, text, text_Eq, is_empty}
use upfpolicyengine.Types.{success, failure}
use upfpolicyengine.Address.{Inet}
use upfpolicyengine.RunResult.{RunResult, disclaimer}
use upfpolicyengine.Scenarios.{scenario_names, run}
use upfpolicyengine.Json.Library.{Json}
use upfpolicyengine.Json.Output.{render_json}
use upfpolicyengine.Json.RunFiles.{returned, uncaught, undetermined, run_files}
use upfpolicyengine.Human.{render_human}

-- The variables that the loop over the arguments sets.
pub record Options : Type 0 where
  pub scenario : Text
  pub rules : Text
  pub packets : Text
  pub output : Text
  pub list : Bool

abbrev pub default_options : Options
default_options = record {
  scenario = text "";
  rules = text "";
  packets = text "";
  output = text "human";
  list = false;
}

-- How the loop ends: at the end of the arguments, at `--help`, or at an argument it does not take.
pub data Parsed : Type 0 where
  parsed : Options → Parsed
  help : Parsed
  rejected : Parsed

abbrev pub takes_value : Text → Bool
takes_value arg =
    arg == text "--scenario"
    || arg == text "--rules"
    || arg == text "--packets"
    || arg == text "--output"

abbrev pub set_option : Text → Text → Options → Options
set_option arg value o =
    if arg == text "--scenario"
    then record o { scenario = value }
    else if arg == text "--rules"
    then record o { rules = value }
    else if arg == text "--packets"
    then record o { packets = value }
    else record o { output = value }

-- The loop over the arguments behind the program's name.
unfoldable pub parse_arguments : Options → List Text → Parsed
parse_arguments o [] = parsed o
parse_arguments o (arg ∷ []) =
    if arg == text "--help"
    then help
    else if arg == text "--list-scenarios"
    then parsed (record o { list = true })
    else rejected
parse_arguments o (arg ∷ value ∷ rest) =
    let listed = parse_arguments (record o { list = true }) (value ∷ rest) in
    let valued = parse_arguments (set_option arg value o) rest in
    if arg == text "--help"
    then help
    else if arg == text "--list-scenarios"
    then listed
    else if takes_value arg
    then valued
    else rejected

-- The exit code with what is written to the standard output and to the standard error; `aborted` is
-- an exception that leaves `main`, or undefined behaviour.
pub data Exit : Type 0 where
  exited : ℕ → Text → Text → Exit
  aborted : Exit

abbrev pub line_break : Text
line_break = 10 ∷ []

abbrev pub usage_text : Text
usage_text =
    text "Usage: upf-rule-pipeline-demo --scenario NAME [--output human|json]"
    ++ line_break
    ++ text "       upf-rule-pipeline-demo --rules FILE --packets FILE [--output human|json]"
    ++ line_break

-- `usage`
abbrev pub usage : Exit
usage = exited 2 [] usage_text

abbrev pub help_text : Text
help_text =
    disclaimer
    ++ line_break
    ++ text "Usage: upf-rule-pipeline-demo --scenario NAME [--output human|json]"
    ++ line_break

-- The list of the scenarios, one name for each line.
unfoldable pub list_names : List Text → Text
list_names [] = []
list_names (name ∷ names) = name ++ line_break ++ list_names names

-- `known = known || names[i] == scenario` over the names.
unfoldable pub is_known : Bool → Text → List Text → Bool
is_known known scenario [] = known
is_known known scenario (name ∷ names) = is_known (known || name == scenario) scenario names

module _ (json : Json) (inet : Inet) (files : Text → Option Text) (arrival : ℕ) where
  -- The output at the end of `main`.
  unfoldable pub show : Options → RunResult → Exit
  unfolding render_json render_human
  show o result =
      if o.output == text "json"
      then (elim (render_json json inet result) [
        | failure what ↦ aborted
        | success document ↦ exited 0 (document ++ line_break) []
      ])
      else exited 0 (render_human result) []

  unfoldable pub run_scenario : Options → Exit
  unfolding is_known run show
  run_scenario o =
      if not (is_known false o.scenario scenario_names)
      then usage
      else elim (run inet arrival o.scenario) [ none ↦ aborted | some result ↦ show o result ]

  unfoldable pub run_documents : Options → Exit
  unfolding run_files show
  run_documents o = elim (run_files json inet files o.rules o.packets) [
    | returned r ↦ elim r [
      | failure error ↦ exited 4 [] (error ++ line_break)
      | success result ↦ show o result
    ]
    | uncaught what ↦ aborted
    | undetermined ↦ aborted
  ]

  -- `main` behind the loop over the arguments.
  unfoldable pub run_options : Options → Exit
  unfolding list_names run_scenario run_documents
  run_options o =
      if o.list
      then exited 0 (list_names scenario_names ++ disclaimer ++ line_break) []
      else if not (o.output == text "human") && not (o.output == text "json")
      then usage
      else if not (is_empty o.scenario) && is_empty o.rules && is_empty o.packets
      then run_scenario o
      else if is_empty o.scenario && not (is_empty o.rules) && not (is_empty o.packets)
      then run_documents o
      else usage

  -- `main`
  unfoldable pub main : List Text → Exit
  unfolding parse_arguments run_options
  main arguments = elim (parse_arguments default_options arguments) [
    | help ↦ exited 0 help_text []
    | rejected ↦ usage
    | parsed o ↦ run_options o
  ]
