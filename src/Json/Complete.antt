-- ===== src/Json/Complete.antt =====
-- What `runFiles` comes to once both documents are read.
use upfpolicyengine.Common.{
  ℕ, ◌≡◌, refl, sym, ap, subst, ◌∙◌, ◌⊎◌, inl, inr, Option, none, some, List, [], ◌∷◌, ◌++◌, map,
  push_back,
}
use upfpolicyengine.Common.Text.{Text, text}
use upfpolicyengine.Types.{Result, success, failure, default_limits, converged}
use upfpolicyengine.Address.{Inet}
use upfpolicyengine.Packet.{Packet}
use upfpolicyengine.Rules.{RuleSet}
use upfpolicyengine.Decision.{PacketDecision}
use upfpolicyengine.Validation.{validate_rule_set}
use upfpolicyengine.Validation.Accepts.{IsAccepted, validate_rule_set-IsAccepted}
use upfpolicyengine.RuntimeState.{default_runtime}
use upfpolicyengine.Migration.{install_runtime}
use upfpolicyengine.Pipeline.{Pipeline, new_pipeline, install, process, initial_decision}
use upfpolicyengine.Pipeline.Identity.{Identity, identity, process-identity}
use upfpolicyengine.Pipeline.Reachable.{Reachable, start, installs, processes, Reachable-Decides}
use upfpolicyengine.RunResult.{RunResult, default_result}
use upfpolicyengine.Json.Library.{Json, got}
use upfpolicyengine.Json.Input.{read_json, parse_rules, parse_packets}
use upfpolicyengine.Json.RunFiles.{
  Ending, returned, process_all, finish_files, run_packets, run_read, run_files,
}

-- The decision that is asked for a packet.
abbrev pub asked : Text → Text → ℕ → Packet → Identity
asked run_id scenario_id version packet = record {
  run_id = run_id;
  scenario_id = scenario_id;
  packet_id = packet.packet_id;
  session_id = packet.session_id;
  arrival_time_micros = packet.arrival_time_micros;
  ingress = packet.ingress;
  ruleset_version = version;
}

map-push_back {ℓ κ} :
    {A : Type ℓ} {B : Type κ} (f : A → B) (xs : List A) (x : A) (ys : List B)
    → map f (push_back xs x) ++ ys ≡ map f xs ++ f x ∷ ys
map-push_back f [] x ys = refl
map-push_back f (y ∷ xs) x ys = ap (λ zs. f y ∷ zs) (map-push_back f xs x ys)

abbrev Processed : Option (Pipeline × RunResult) → RunResult → List Identity → Type 0
Processed o result ids =
    (q : Pipeline) × (r : RunResult) × (o ≡ some (q, r))
    × (map identity r.decisions ≡ map identity result.decisions ++ ids)
    × (r.run_id ≡ result.run_id)
    × (r.scenario_id ≡ result.scenario_id)

append-nil {ℓ} : {A : Type ℓ} (xs : List A) → xs ≡ xs ++ []
append-nil [] = refl
append-nil (x ∷ xs) = ap (λ ys. x ∷ ys) (append-nil xs)

module _ (inet : Inet) (rules : RuleSet) where
  initial-asked :
      (p : Pipeline) (packet : Packet) (run_id scenario_id : Text)
      → p.rules ≡ some rules
      → identity (initial_decision p packet run_id scenario_id)
        ≡ asked run_id scenario_id rules.version packet
  initial-asked p packet run_id scenario_id e =
      ap
        (λ o.
          asked run_id scenario_id (elim o as (λ x. ℕ) [ none ↦ 0 | some rules ↦ rules.version ])
            packet)
        e

  process_all_step :
      (p q : Pipeline) (result : RunResult) (d : PacketDecision) (packet : Packet)
      (packets : List Packet)
      → process inet p packet result.run_id result.scenario_id ≡ some (q, d)
      → process_all inet p result (packet ∷ packets)
        ≡ process_all inet q (record result { decisions = push_back result.decisions d }) packets
  unfolding process_all
  process_all_step p q result d packet packets e = rw (process_all, e) refl

  -- The loop makes one decision for each packet, in order, and faults at none.
  process_all-Processed :
      (p : Pipeline) (result : RunResult) (packets : List Packet)
      → Reachable inet default_limits p
      → p.rules ≡ some rules
      → Processed
          (process_all inet p result packets)
          result
          (map (asked result.run_id result.scenario_id rules.version) packets)
  unfolding process_all
  process_all-Processed p result [] r e =
      (p, result, refl, append-nil (map identity result.decisions), refl, refl)
  process_all-Processed p result (packet ∷ packets) r e =
      let (q, d, runs, (effect, frame)) =
        Reachable-Decides inet default_limits p packet result.run_id result.scenario_id r in
      let who =
        process-identity inet p q packet result.run_id result.scenario_id d runs
        ∙ initial-asked p packet result.run_id result.scenario_id e in
      let next : RunResult = record result { decisions = push_back result.decisions d } in
      let (q', r', later, ids, run, scenario) =
        process_all-Processed q next packets
          (processes packet result.run_id result.scenario_id d r runs) (frame.1 ∙ e) in
      (
        q',
        r',
        process_all_step p q result d packet packets runs ∙ later,
        ids
            ∙ (map-push_back identity result.decisions d _
                ∙ ap
                    (λ i.
                      map identity result.decisions
                      ++ i ∷ map (asked result.run_id result.scenario_id rules.version) packets)
                    who),
        run,
        scenario,
      )

  abbrev pub Completed : Ending RunResult → Text → Text → List Packet → Type 0
  Completed ending run_id scenario_id packets =
      (result : RunResult) × (ending ≡ returned (success result))
      × (map identity result.decisions ≡ map (asked run_id scenario_id rules.version) packets)
      × (result.run_id ≡ run_id)
      × (result.scenario_id ≡ scenario_id)
      × (result.intended_version ≡ rules.version)
      × (result.applied_version ≡ rules.version)
      × (result.active_version ≡ rules.version)
      × (result.convergence ≡ converged)

  finish-Completed :
      (o : Option (Pipeline × RunResult)) (run_id scenario_id : Text) (packets : List Packet)
      → Processed o
          (record default_result { run_id = run_id; scenario_id = scenario_id })
          (map (asked run_id scenario_id rules.version) packets)
      → Completed (finish_files rules o) run_id scenario_id packets
  finish-Completed o run_id scenario_id packets (q, r, e, ids, run, scenario) =
      (_, ap (finish_files rules) e, ids, run, scenario, refl, refl, refl, refl)

  abbrev pub Refused : Ending RunResult → Type 0
  Refused ending = (error : Text) × (ending ≡ returned (failure error))

  abbrev pub Ends : Ending RunResult → Text → Text → List Packet → Type 0
  Ends ending run_id scenario_id packets =
      (IsAccepted rules default_limits × Completed ending run_id scenario_id packets)
      ⊎ ((¬ IsAccepted rules default_limits) × Refused ending)

  module _ (json : Json) (root : json.Value) (run_id scenario_id : Text)
      (runs : json.value_or root (text "runId") (text "file-run") ≡ success run_id)
      (scenarios : json.value_or root (text "scenarioId") (text "local-files")
        ≡ success scenario_id) where
    abbrev Ran : List Packet → Ending RunResult
    Ran packets = run_packets json inet rules packets root

    abbrev named : RunResult
    named = record default_result { run_id = run_id; scenario_id = scenario_id }

    abbrev fresh : Pipeline
    fresh = (install (new_pipeline default_limits) rules).0

    fresh-rules : validate_rule_set rules default_limits ≡ success tt → fresh.rules ≡ some rules
    unfolding install
    fresh-rules e = ap (λ r. r.0.rules) installed
      where
        installed : install (new_pipeline default_limits) rules ≡ (
          record (new_pipeline default_limits) {
            rules = some rules;
            runtime = install_runtime rules default_runtime;
          },
          success tt,
        )
        installed = rw (install, e) refl

    run_packets-accepted :
        (packets : List Packet)
        → validate_rule_set rules default_limits ≡ success tt
        → Ran packets ≡ finish_files rules (process_all inet fresh named packets)
    unfolding run_packets install
    run_packets-accepted packets e = rw (run_packets, install, e, runs, scenarios) refl

    run_packets-refused :
        (packets : List Packet) (error : Text)
        → validate_rule_set rules default_limits ≡ failure error
        → Ran packets ≡ returned (failure error)
    unfolding run_packets install
    run_packets-refused packets error e = rw (run_packets, install, e) refl

    by_validation :
        (packets : List Packet) (v : Result (Unit {0}))
        → validate_rule_set rules default_limits ≡ v
        → Ends (Ran packets) run_id scenario_id packets
    by_validation packets (success tt) e =
        let processed =
          process_all-Processed fresh named packets (installs rules start) (fresh-rules e) in
        inl (
          (validate_rule_set-IsAccepted rules default_limits).0 e,
          subst (λ x. Completed x run_id scenario_id packets) (sym (run_packets-accepted packets e))
              (finish-Completed _ run_id scenario_id packets processed),
        )
    by_validation packets (failure error) e = inr (
      (λ accepted. absurd (
          failure-success
            (sym e ∙ (validate_rule_set-IsAccepted rules default_limits).1 accepted))),
      (error, run_packets-refused packets error e),
    )
      where
        failure-success : ◌≡◌ {A = Result (Unit {0})} (failure error) (success tt) → ⊥
        failure-success e = cc e

    -- Where both files can be read, a rule set and packets are read from them, and the second
    -- document names the run and the scenario as strings or not at all: if the rule set is
    -- acceptable with the default limits, `runFiles` returns a result with one decision for each
    -- packet, in their order, for the run, the scenario, the packet and the version of the rules,
    -- and with the names and the versions set; if it is not, it returns a failure. Nothing is thrown
    -- and no null pointer is dereferenced.
    pub run_files-Ends :
        (files : Text → Option Text) (rules_path packets_path : Text) (rules_json : json.Value)
        (packets : List Packet)
        → read_json json files rules_path ≡ success rules_json
        → read_json json files packets_path ≡ success root
        → parse_rules json inet rules_json ≡ got rules
        → parse_packets json inet root ≡ got packets
        → Ends (run_files json inet files rules_path packets_path) run_id scenario_id packets
    unfolding run_files run_read
    run_files-Ends files rules_path packets_path rules_json packets e e' parsed parsed' =
        subst (λ x. Ends x run_id scenario_id packets) (sym ran) (by_validation packets _ refl)
      where
        ran : run_files json inet files rules_path packets_path ≡ Ran packets
        ran = rw (run_files, run_read, e, e', parsed, parsed') refl
