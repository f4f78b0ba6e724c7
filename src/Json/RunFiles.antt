-- ===== src/Json/RunFiles.antt =====
-- `runFiles`: a run of the packets of one document against the rules of another.
use upfpolicyengine.Common.{Option, none, some, List, [], ◌∷◌, push_back}
use upfpolicyengine.Common.Text.{Text, text}
use upfpolicyengine.Types.{Result, success, failure, default_limits, converged}
use upfpolicyengine.Address.{Inet}
use upfpolicyengine.Packet.{Packet}
use upfpolicyengine.Rules.{RuleSet}
use upfpolicyengine.Pipeline.{Pipeline, new_pipeline, install, process}
use upfpolicyengine.RunResult.{RunResult, default_result}
use upfpolicyengine.Json.Library.{Json, Read, got, failed, undefined}
use upfpolicyengine.Json.Input.{read_json, parse_rules, parse_packets}

-- How `runFiles` ends: it returns, an exception of the library leaves it with its `what()`, or its
-- behaviour is undefined.
pub data Ending {ℓ} (A : Type ℓ) : Type ℓ where
  returned : Result A → Ending A
  uncaught : Text → Ending A
  undetermined : Ending A

-- The loop over the packets; `none` is: a null pointer is dereferenced.
unfoldable pub process_all :
    Inet → Pipeline → RunResult → List Packet → Option (Pipeline × RunResult)
unfolding process
process_all inet p result [] = some (p, result)
process_all inet p result (packet ∷ packets) =
    elim (process inet p packet result.run_id result.scenario_id) [
      | none ↦ none
      | some (p', d) ↦
          process_all inet p' (record result { decisions = push_back result.decisions d }) packets
    ]

-- What `runFiles` sets in the result once the loop is over.
abbrev pub finish_files : RuleSet → Option (Pipeline × RunResult) → Ending RunResult
finish_files rules none = undetermined
finish_files rules (some (p, result)) = returned (
    success (record result {
      n3_sink = p.n3_sink;
      n6_sink = p.n6_sink;
      intended_version = rules.version;
      applied_version = rules.version;
      active_version = rules.version;
      convergence = converged;
    }))

module _ (json : Json) (inet : Inet) where
  open json use {Value, value_or}

  -- The installation, the two names of the run, and the loop.
  unfoldable pub run_packets : RuleSet → List Packet → Value → Ending RunResult
  unfolding install process_all
  run_packets rules packets root =
      let (p, installed) = install (new_pipeline default_limits) rules in
      elim installed [
        | failure error ↦ returned (failure error)
        | success _ ↦ elim (value_or root (text "runId") (text "file-run")) [
          | failure what ↦ uncaught what
          | success run_id ↦ elim (value_or root (text "scenarioId") (text "local-files")) [
            | failure what ↦ uncaught what
            | success scenario_id ↦ finish_files rules (
                process_all inet p
                  (record default_result { run_id = run_id; scenario_id = scenario_id }) packets)
          ]
        ]
      ]

  -- What follows the reading of both documents.
  unfoldable pub run_read : Read RuleSet → Read (List Packet) → Value → Ending RunResult
  unfolding run_packets
  run_read undefined packets root = undetermined
  run_read (got rules) undefined root = undetermined
  run_read (failed error) undefined root = undetermined
  run_read (failed error) (got packets) root = returned (failure error)
  run_read (failed error) (failed error') root = returned (failure error)
  run_read (got rules) (failed error) root = returned (failure error)
  run_read (got rules) (got packets) root = run_packets rules packets root

  -- `runFiles`, over the files that can be opened, with their contents.
  unfoldable pub run_files : (Text → Option Text) → Text → Text → Ending RunResult
  unfolding read_json run_read parse_rules parse_packets
  run_files files rules_path packets_path = elim (read_json json files rules_path) [
    | failure error ↦ returned (failure error)
    | success rules_json ↦ elim (read_json json files packets_path) [
      | failure error ↦ returned (failure error)
      | success packets_json ↦
          run_read (parse_rules json inet rules_json) (parse_packets json inet packets_json)
            packets_json
    ]
  ]
