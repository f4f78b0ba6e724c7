-- ===== src/Pipeline/Process.antt =====
-- `PacketPipeline::process`, in the order of its statements.
use upfpolicyengine.Common.{
  ℕ, true, false, not, ◌||◌, Option, none, some, List, [], leb, ◌==◌, length, push_back,
  if◌then◌else◌, ◌&&◌,
}
use upfpolicyengine.Common.Dict.{insert, index}
use upfpolicyengine.Common.Text.{Text, text, text_Eq}
use upfpolicyengine.Types.{Interface, n3, n6, Interface_Eq, is_drop, RuleId}
use upfpolicyengine.Address.{Inet}
use upfpolicyengine.Packet.{Packet}
use upfpolicyengine.Rules.{Pdr, Far, Qer, RuleSet, find_far, find_qer, find_urr}
use upfpolicyengine.Decision.{
  PacketDecision, TerminalResult, forwarded_to_n3, forwarded_to_n6, far_dropped, no_match,
  malformed_packet, rate_limited, arithmetic_error, capacity_error, default_qer_decision,
  default_far_decision, default_urr_decision,
}
use upfpolicyengine.RuntimeState.{TokenBucketState, default_bucket, default_counter}
use upfpolicyengine.Qer.{QerEvaluation, evaluate_qer}
use upfpolicyengine.Far.{FarEvaluation, evaluate_far}
use upfpolicyengine.Urr.{UrrEvaluation, evaluate_urr}
use upfpolicyengine.Pipeline.State.{
  Pipeline, valid_packet, Flow, go, exit, fault, ◌>>=◌, exit_retained, dereference, retain,
}
use upfpolicyengine.Pipeline.Select.{scan, sort_candidates}

-- The decision at the head of `process`.
abbrev pub initial_decision : Pipeline → Packet → Text → Text → PacketDecision
initial_decision p packet run_id scenario_id = record {
  run_id = run_id;
  scenario_id = scenario_id;
  packet_id = packet.packet_id;
  session_id = packet.session_id;
  arrival_time_micros = packet.arrival_time_micros;
  ingress = packet.ingress;
  ruleset_version = elim p.rules [ none ↦ 0 | some rules ↦ rules.version ];
  update_id = text "";
  candidates = [];
  selected_pdr_id = 0;
  qer = default_qer_decision;
  far = default_far_decision;
  urr = default_urr_decision;
  terminal_result = no_match;
  sink = none;
  transformed_packet = none;
  observability_degraded = false;
}

-- The rule set that the packet is held against.
unfoldable pub admit : Pipeline → Packet → PacketDecision → Flow RuleSet
admit p packet d =
    if leb p.limits.results (length p.decisions)
    then exit p (record d { terminal_result = capacity_error })
    else elim p.rules [
      | none ↦ exit_retained p (record d { terminal_result = no_match })
      | some rules ↦
          if not (valid_packet packet) || not (packet.session_id == rules.session_id)
          then exit_retained p (record d { terminal_result = malformed_packet })
          else go rules
    ]

-- The winner among the PDRs, and the decision that names it.
unfoldable pub select :
    Inet → Pipeline → RuleSet → Packet → PacketDecision → Flow (Pdr × PacketDecision)
select inet p rules packet d =
    let (candidates, winner) = scan inet packet rules.pdrs [] none in
    let d' = record d { candidates = sort_candidates candidates } in
    elim winner [
      | none ↦ exit_retained p (record d' { terminal_result = no_match })
      | some pdr ↦ go (pdr, record d' { selected_pdr_id = pdr.id.value })
    ]

-- A refusal by the rate stores the refilled bucket.
abbrev pub store_refusal : TerminalResult → Pipeline → ℕ → TokenBucketState → Pipeline
store_refusal rate_limited p key next = record p {
  runtime = record p.runtime { qers = insert key next p.runtime.qers };
}
store_refusal _ p key next = p

-- What `process` does with the evaluation of the QER. It goes on with the decision and the new state
-- of the bucket with its key, which is not stored yet.
unfoldable pub settle_qer :
    Pipeline
    → PacketDecision
    → RuleId
    → Qer
    → QerEvaluation
    → Flow (Pipeline × PacketDecision × Option (ℕ × TokenBucketState))
settle_qer p d id qer evaluation =
    let d' = record d { qer = evaluation.decision } in
    if evaluation.decision.allowed
    then go (p, d', some (id.value, evaluation.next))
    else exit_retained (store_refusal evaluation.failure p qer.id.value evaluation.next)
        (record d' { terminal_result = evaluation.failure })

-- The QER of the winner. The reading of its bucket can insert an entry.
unfoldable pub apply_qer :
    Pipeline
    → RuleSet
    → Packet
    → Pdr
    → PacketDecision
    → Flow (Pipeline × PacketDecision × Option (ℕ × TokenBucketState))
apply_qer p rules packet winner d = elim winner.qer_id [
  | none ↦ go (
    p,
    record d {
      qer = record default_qer_decision { outcome = text "NOT_APPLICABLE"; allowed = true };
    },
    none,
  )
  | some id ↦ do
    qer ← dereference (find_qer rules id)
    let (bucket, buckets) = index qer.id.value default_bucket p.runtime.qers
    settle_qer (record p { runtime = record p.runtime { qers = buckets } }) d id qer
        (evaluate_qer qer bucket packet.payload_bytes packet.arrival_time_micros)
]

-- The FAR of the winner.
unfoldable pub apply_far :
    Pipeline → RuleSet → Packet → Pdr → PacketDecision → Flow (Far × FarEvaluation × PacketDecision)
apply_far p rules packet winner d = do
  far ← dereference (find_far rules winner.far_id)
  let evaluation = evaluate_far far packet
  if not evaluation.valid
      then exit_retained p (record d { terminal_result = malformed_packet })
      else go (
        far,
        evaluation,
        record d {
          far = record {
            applicable = true;
            far_id = far.id.value;
            action = far.action;
            destination = evaluation.destination;
            before = packet.tunnel;
            after = evaluation.packet.tunnel;
          };
        },
      )

-- What `process` does with the evaluation of the URR. It goes on with the decision, and the key with
-- the evaluation, of which nothing is stored yet.
unfoldable pub settle_urr :
    Pipeline
    → PacketDecision
    → RuleId
    → UrrEvaluation
    → Flow (Pipeline × PacketDecision × Option (ℕ × UrrEvaluation))
settle_urr p d id usage =
    let d' = record d { urr = usage.decision } in
    if usage.overflow
    then exit_retained p (record d' { terminal_result = arithmetic_error })
    else if usage.report_generated && leb p.limits.reports (length p.reports)
    then exit_retained p (record d' { terminal_result = capacity_error })
    else go (p, d', some (id.value, usage))

-- The URR of the winner. The reading of its counter can insert an entry.
unfoldable pub apply_urr :
    Pipeline
    → RuleSet
    → Packet
    → Pdr
    → PacketDecision
    → Flow (Pipeline × PacketDecision × Option (ℕ × UrrEvaluation))
apply_urr p rules packet winner d = elim winner.urr_id [
  | none ↦ go (p, d, none)
  | some id ↦ do
    urr ← dereference (find_urr rules id)
    let (counter, counters) = index urr.id.value default_counter p.runtime.urrs
    settle_urr (record p { runtime = record p.runtime { urrs = counters } }) d id
        (evaluate_urr urr counter packet.payload_bytes rules.session_id rules.version)
]

-- `sink->size()`, and `sink->push_back(packet)`.
abbrev pub sink_of : Pipeline → Interface → List Packet
sink_of p n3 = p.n3_sink
sink_of p n6 = p.n6_sink

abbrev pub push_sink : Pipeline → Interface → Packet → Pipeline
push_sink p n3 packet = record p { n3_sink = push_back p.n3_sink packet }
push_sink p n6 packet = record p { n6_sink = push_back p.n6_sink packet }

-- The changes of the runtime state and of the reports, once nothing can fail.
abbrev pub store_bucket : Pipeline → Option (ℕ × TokenBucketState) → Pipeline
store_bucket p none = p
store_bucket p (some (id, next)) = record p {
  runtime = record p.runtime { qers = insert id next p.runtime.qers };
}

abbrev pub store_usage : Pipeline → Option (ℕ × UrrEvaluation) → Pipeline
store_usage p none = p
store_usage p (some (id, usage)) = record p {
  runtime = record p.runtime { urrs = insert id usage.next p.runtime.urrs };
  reports =
      if usage.report_generated then push_back p.reports usage.decision.report_id else p.reports;
}

unfoldable pub commit :
    Pipeline
    → PacketDecision
    → Far
    → FarEvaluation
    → Option (ℕ × TokenBucketState)
    → Option (ℕ × UrrEvaluation)
    → Pipeline × PacketDecision
commit p d far evaluation bucket usage =
    if evaluation.forwarded && leb p.limits.sink_packets (length (sink_of p evaluation.destination))
    then retain p (record d { terminal_result = capacity_error })
    else (let p' = store_usage (store_bucket p bucket) usage in
        if is_drop far.action
        then retain p' (record d { terminal_result = far_dropped })
        else retain (push_sink p' evaluation.destination evaluation.packet) (record d {
          transformed_packet = some evaluation.packet;
          sink = some evaluation.destination;
          terminal_result =
              if evaluation.destination == n3 then forwarded_to_n3 else forwarded_to_n6;
        }))

-- Everything behind the choice of the winner.
unfoldable pub apply_winner :
    Pipeline → RuleSet → Packet → Pdr → PacketDecision → Flow (Pipeline × PacketDecision)
apply_winner p rules packet winner d = do
  (p', d', bucket) ← apply_qer p rules packet winner d
  (far, evaluation, d'') ← apply_far p' rules packet winner d'
  (p'', d''', usage) ← apply_urr p' rules packet winner d''
  go (commit p'' d''' far evaluation bucket usage)

unfoldable pub process_flow :
    Inet → Pipeline → Packet → PacketDecision → Flow (Pipeline × PacketDecision)
process_flow inet p packet d = do
  rules ← admit p packet d
  (winner, d') ← select inet p rules packet d
  apply_winner p rules packet winner d'

-- How `process` ends; `none` is undefined behaviour.
abbrev pub finish : Flow (Pipeline × PacketDecision) → Option (Pipeline × PacketDecision)
finish (go r) = some r
finish (exit p d) = some (p, d)
finish fault = none

unfoldable pub process : Inet → Pipeline → Packet → Text → Text → Option (Pipeline × PacketDecision)
process inet p packet run_id scenario_id =
    finish (process_flow inet p packet (initial_decision p packet run_id scenario_id))
