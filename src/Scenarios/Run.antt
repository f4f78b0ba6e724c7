-- ===== src/Scenarios/Run.antt =====
-- `ScenarioRunner`. `none` is: `value()` throws, or a null pointer is dereferenced.
use upfpolicyengine.Common.{
  ℕ, false, not, ◌&&◌, ◌||◌, Option, none, some, List, [], ◌∷◌, ◌==◌, ◌>>=◌, push_back, nat_eq,
  if◌then◌else◌,
}
use upfpolicyengine.Common.Text.{Text, text, text_Eq}
use upfpolicyengine.Types.{
  CapacityLimits, default_limits, converged, divergent, immediate_success, transient_failure,
}
use upfpolicyengine.Address.{Inet}
use upfpolicyengine.Packet.{Packet}
use upfpolicyengine.Rules.{RuleSet}
use upfpolicyengine.Decision.{
  PacketDecision, default_qer_decision, default_far_decision, default_urr_decision,
  packet_queue_full, shutdown_deadline,
}
use upfpolicyengine.Pipeline.{Pipeline, new_pipeline, install, process}
use upfpolicyengine.RuleService.{new_service, update}
use upfpolicyengine.Dataplane.{plain_result, new_dataplane, simulated}
use upfpolicyengine.Reconciliation.{reconcile}
use upfpolicyengine.RunResult.{RunResult, default_result}
use upfpolicyengine.Scenarios.Fixtures.{
  uplink_rules, uplink_packet, downlink_rules, downlink_packet,
}

-- `ScenarioRunner::scenarioNames`
abbrev pub scenario_names : List Text
scenario_names =
    text "uplink-forward"
    ∷ text "downlink-forward"
    ∷ text "pdr-precedence"
    ∷ text "qer-rate-limit"
    ∷ text "urr-threshold"
    ∷ text "adapter-failure"
    ∷ text "queue-full"
    ∷ text "overload"
    ∷ text "recovery"
    ∷ text "shutdown"
    ∷ []

-- `result.decisions.push_back(pipeline.process(packet, result.runId, result.scenarioId));`
unfoldable pub decide : Inet → Pipeline × RunResult → Packet → Option (Pipeline × RunResult)
unfolding process
decide inet (p, r) packet = do
  (p', d) ← process inet p packet r.run_id r.scenario_id
  some (p', record r { decisions = push_back r.decisions d })

-- A new pipeline with these limits, the rules installed, whatever `install` returns.
abbrev pub installed : CapacityLimits → RuleSet → Pipeline
installed limits rules = (install (new_pipeline limits) rules).0

-- The second PDR of the scenario: the first one, at a lower priority.
abbrev pub with_lower_priority : RuleSet → RuleSet
with_lower_priority rules = elim rules.pdrs [
  | [] ↦ rules
  | pdr ∷ pdrs ↦ record rules {
    pdrs = push_back rules.pdrs (record pdr { id = record { value = 11 }; precedence = 200 });
  }
]

-- The branches of `run`, with what they leave in the pipeline and in the result.
unfoldable pub play_downlink : Inet → RunResult → Option (Pipeline × RunResult)
unfolding decide install downlink_rules downlink_packet
play_downlink inet r = do
  rules ← downlink_rules inet
  packet ← downlink_packet inet
  decide inet (installed default_limits rules, r) packet

unfoldable pub play_rate_limit : Inet → RunResult → Option (Pipeline × RunResult)
unfolding decide install uplink_rules uplink_packet
play_rate_limit inet r = do
  rules ← uplink_rules inet
  packet ← uplink_packet inet
  let first = record packet { packet_id = text "pkt-rate-001"; payload_bytes = 19000 }
  let second = record packet { packet_id = text "pkt-rate-002"; payload_bytes = 2000 }
  played ← decide inet (installed default_limits rules, r) first
  decide inet played second

unfoldable pub play_threshold : Inet → RunResult → Option (Pipeline × RunResult)
unfolding decide install uplink_rules uplink_packet
play_threshold inet r = do
  rules ← uplink_rules inet
  packet ← uplink_packet inet
  let crossing = record packet { packet_id = text "pkt-urr-001"; payload_bytes = 10000 }
  decide inet (installed default_limits rules, r) crossing

unfoldable pub play_precedence : Inet → RunResult → Option (Pipeline × RunResult)
unfolding decide install uplink_rules uplink_packet
play_precedence inet r = do
  rules ← uplink_rules inet
  packet ← uplink_packet inet
  decide inet (installed default_limits (with_lower_priority rules), r) packet

-- The fuel is one more than the attempts.
unfoldable pub play_recovery : Inet → RunResult → Option (Pipeline × RunResult)
unfolding decide install uplink_rules uplink_packet update reconcile
play_recovery inet r = do
  rules ← uplink_rules inet
  let service = (update (new_service default_limits) (text "update-3") rules).0
  let outcomes = plain_result transient_failure ∷ plain_result immediate_success ∷ []
  (service', adapter, status) ← reconcile simulated 4 service (new_dataplane outcomes) 3
  packet ← uplink_packet inet
  (p, r') ← decide inet (installed default_limits rules, r) packet
  some (
    p,
    record r' {
      intended_version = rules.version;
      active_version = rules.version;
      applied_version = service'.applied_version;
      convergence = if status.converged then converged else divergent;
    },
  )

unfoldable pub play_overload : Inet → RunResult → Option (Pipeline × RunResult)
unfolding decide install uplink_rules uplink_packet
play_overload inet r = do
  rules ← uplink_rules inet
  packet ← uplink_packet inet
  decide inet (installed (record default_limits { events = 0 }) rules, r) packet

-- The packet is not processed. The decision's arrival time is not initialised: `arrival` is what
-- its memory holds.
unfoldable pub play_unprocessed : Inet → ℕ → RunResult → Option (Pipeline × RunResult)
unfolding uplink_packet
play_unprocessed inet arrival r = do
  packet ← uplink_packet inet
  let classified : PacketDecision = record {
    run_id = r.run_id;
    scenario_id = r.scenario_id;
    packet_id = packet.packet_id;
    session_id = packet.session_id;
    arrival_time_micros = arrival;
    ingress = packet.ingress;
    ruleset_version = 3;
    update_id = text "";
    candidates = [];
    selected_pdr_id = 0;
    qer = default_qer_decision;
    far = default_far_decision;
    urr = default_urr_decision;
    terminal_result =
        if r.scenario_id == text "queue-full" then packet_queue_full else shutdown_deadline;
    sink = none;
    transformed_packet = none;
    observability_degraded = false;
  }
  some (new_pipeline default_limits, record r { decisions = push_back r.decisions classified })

unfoldable pub play_uplink : Inet → RunResult → Option (Pipeline × RunResult)
unfolding decide install uplink_rules uplink_packet
play_uplink inet r = do
  rules ← uplink_rules inet
  packet ← uplink_packet inet
  decide inet (installed default_limits rules, r) packet

abbrev pub start_result : Text → RunResult
start_result name = record default_result { run_id = text "upf-demo-001"; scenario_id = name }

-- The choice of the branch.
unfoldable pub play : Inet → ℕ → Text → Option (Pipeline × RunResult)
unfolding play_downlink play_rate_limit play_threshold play_precedence play_recovery play_overload
    play_unprocessed play_uplink
play inet arrival name =
    let r = start_result name in
    if name == text "downlink-forward"
    then play_downlink inet r
    else if name == text "qer-rate-limit"
    then play_rate_limit inet r
    else if name == text "urr-threshold"
    then play_threshold inet r
    else if name == text "pdr-precedence"
    then play_precedence inet r
    else if name == text "adapter-failure" || name == text "recovery"
    then play_recovery inet r
    else if name == text "overload"
    then play_overload inet r
    else if name == text "queue-full" || name == text "shutdown"
    then play_unprocessed inet arrival r
    else play_uplink inet r

-- What `run` copies from the pipeline and from the name behind the branches.
unfoldable pub conclude : Text → Pipeline × RunResult → RunResult
conclude name (p, r) =
    let r' = record r {
      n3_sink = p.n3_sink;
      n6_sink = p.n6_sink;
      usage_reports = p.reports;
      observability_degraded = not (nat_eq p.dropped_events 0);
      dropped_events = p.dropped_events;
    } in
    if not (name == text "adapter-failure") && not (name == text "recovery")
    then record r' {
      intended_version = 3;
      applied_version = 3;
      active_version = 3;
      convergence = converged;
    }
    else r'

-- `ScenarioRunner::run`
unfoldable pub run : Inet → ℕ → Text → Option RunResult
unfolding play conclude
run inet arrival name = do played ← play inet arrival name; some (conclude name played)
