-- ===== src/Pipeline/Capacity.antt =====
-- The capacities of the pipeline (`CapacityLimits`): what installs and packets leave in its vectors
-- stays within them, and each retained decision is recorded by an event or counted as dropped.
use upfpolicyengine.Common.{
  ℕ, ◌+◌, ◌≤◌, ◌<◌, ◌≡◌, refl, ◌∙◌, inl, inr, true, false, ◌&&◌, Option, none, some, arith, leb,
  ltb, length, length-push_back, Bool-cases, WhenSome,
}
use upfpolicyengine.Common.Text.{text_Eq}
use upfpolicyengine.Types.{Interface, n3, n6, Interface_Eq, is_drop, u64_max, saturating_increment}
use upfpolicyengine.Packet.{Packet}
use upfpolicyengine.Rules.{Far}
use upfpolicyengine.Decision.{
  PacketDecision, TerminalResult, terminal_result_name, forwarded_to_n3, forwarded_to_n6,
  far_dropped, no_match, malformed_packet, gate_closed, rate_limited, packet_queue_full,
  shutdown_deadline, arithmetic_error, capacity_error,
}
use upfpolicyengine.RuntimeState.{RuntimeState, TokenBucketState}
use upfpolicyengine.Far.{evaluate_far}
use upfpolicyengine.Far.Branches.{evaluate_far_action}
use upfpolicyengine.Urr.{UrrEvaluation}
use upfpolicyengine.Pipeline.State.{Pipeline, retain}
use upfpolicyengine.Pipeline.Process.{
  store_refusal, sink_of, push_sink, store_bucket, store_usage, commit,
}

-- The vectors are within their capacities, and the decisions are accounted for.
pub record IsBounded (p : Pipeline) : Type 0 where
  pub results : length p.decisions ≤ p.limits.results
  pub events : length p.events ≤ p.limits.events
  pub n3_sink : length p.n3_sink ≤ p.limits.sink_packets
  pub n6_sink : length p.n6_sink ≤ p.limits.sink_packets
  pub reports : length p.reports ≤ p.limits.reports
  pub accounted : length p.events + p.dropped_events ≡ length p.decisions
  pub countable : p.limits.results ≤ u64_max

-- There is room for one more decision.
pub record HasRoom (p : Pipeline) : Type 0 where
  pub bounded : IsBounded p
  pub room : length p.decisions < p.limits.results

-- What the early returns of `process` leave.
abbrev pub Within : Pipeline → PacketDecision → Type 0
Within p d = IsBounded p

-- A decision that is retained leaves the pipeline within its capacities.
pub retain-IsBounded : (p : Pipeline) (d : PacketDecision) → HasRoom p → IsBounded (retain p d).0
unfolding retain saturating_increment
retain-IsBounded p d h = elim (Bool-cases (ltb (length p.events) p.limits.events)) [
  | inl e ↦
      let event = length-push_back p.events (terminal_result_name d.terminal_result) in
      let decision = length-push_back p.decisions d in
      rw (e, retain)
        (record {
          results = ground (arith, h.room, decision);
          events = ground (arith, event);
          n3_sink = h.bounded.n3_sink;
          n6_sink = h.bounded.n6_sink;
          reports = h.bounded.reports;
          accounted = ground (arith, h.bounded.accounted, event, decision);
          countable = h.bounded.countable;
        })
  | inr e ↦
      let decision = length-push_back p.decisions (record d { observability_degraded = true }) in
      rw (e, retain)
        (record {
          results = ground (arith, h.room, decision);
          events = h.bounded.events;
          n3_sink = h.bounded.n3_sink;
          n6_sink = h.bounded.n6_sink;
          reports = h.bounded.reports;
          accounted = ground (arith, h.room, h.bounded.accounted, h.bounded.countable, decision);
          countable = h.bounded.countable;
        })
]

-- The runtime state is in none of the capacities.
pub runtime-HasRoom :
    (p : Pipeline) (r : RuntimeState) → HasRoom p → HasRoom (record p { runtime = r })
runtime-HasRoom p r h = record {
  bounded = record {
    results = h.bounded.results;
    events = h.bounded.events;
    n3_sink = h.bounded.n3_sink;
    n6_sink = h.bounded.n6_sink;
    reports = h.bounded.reports;
    accounted = h.bounded.accounted;
    countable = h.bounded.countable;
  };
  room = h.room;
}

pub store_refusal-HasRoom :
    (f : TerminalResult) (p : Pipeline) (key : ℕ) (next : TokenBucketState)
    → HasRoom p
    → HasRoom (store_refusal f p key next)
store_refusal-HasRoom rate_limited p key next h = runtime-HasRoom p _ h
store_refusal-HasRoom forwarded_to_n3 p key next h = h
store_refusal-HasRoom forwarded_to_n6 p key next h = h
store_refusal-HasRoom far_dropped p key next h = h
store_refusal-HasRoom no_match p key next h = h
store_refusal-HasRoom malformed_packet p key next h = h
store_refusal-HasRoom gate_closed p key next h = h
store_refusal-HasRoom packet_queue_full p key next h = h
store_refusal-HasRoom shutdown_deadline p key next h = h
store_refusal-HasRoom arithmetic_error p key next h = h
store_refusal-HasRoom capacity_error p key next h = h

-- A report that is to be stored has room.
abbrev pub ReportFits : Pipeline → Option (ℕ × UrrEvaluation) → Type 0
ReportFits p usage =
    WhenSome usage λ u. (u.1.report_generated && leb p.limits.reports (length p.reports)) ≡ false

store_bucket-HasRoom :
    (p : Pipeline) (bucket : Option (ℕ × TokenBucketState))
    → HasRoom p
    → HasRoom (store_bucket p bucket)
store_bucket-HasRoom p none h = h
store_bucket-HasRoom p (some (k, next)) h = runtime-HasRoom p _ h

store_usage-HasRoom :
    (p : Pipeline) (usage : Option (ℕ × UrrEvaluation))
    → HasRoom p
    → ReportFits p usage
    → HasRoom (store_usage p usage)
store_usage-HasRoom p none h fits = h
store_usage-HasRoom p (some (k, u)) h fits = record {
  bounded = record {
    results = h.bounded.results;
    events = h.bounded.events;
    n3_sink = h.bounded.n3_sink;
    n6_sink = h.bounded.n6_sink;
    reports =
        ground (arith, h.bounded.reports, fits, length-push_back p.reports u.decision.report_id);
    accounted = h.bounded.accounted;
    countable = h.bounded.countable;
  };
  room = h.room;
}

stored-HasRoom :
    (p : Pipeline) (bucket : Option (ℕ × TokenBucketState)) (usage : Option (ℕ × UrrEvaluation))
    → HasRoom p
    → ReportFits p usage
    → HasRoom (store_usage (store_bucket p bucket) usage)
stored-HasRoom p none usage h fits = store_usage-HasRoom p usage h fits
stored-HasRoom p (some (j, next)) none h fits = runtime-HasRoom p _ h
stored-HasRoom p (some (j, next)) (some u) h fits =
    store_usage-HasRoom (store_bucket p (some (j, next))) (some u) (runtime-HasRoom p _ h) fits

push-HasRoom :
    (p : Pipeline) (i : Interface) (sent : Packet)
    → HasRoom p
    → leb p.limits.sink_packets (length (sink_of p i)) ≡ false
    → HasRoom (push_sink p i sent)
push-HasRoom p n3 sent h room = record {
  bounded = record {
    results = h.bounded.results;
    events = h.bounded.events;
    n3_sink = ground (arith, room, length-push_back p.n3_sink sent);
    n6_sink = h.bounded.n6_sink;
    reports = h.bounded.reports;
    accounted = h.bounded.accounted;
    countable = h.bounded.countable;
  };
  room = h.room;
}
push-HasRoom p n6 sent h room = record {
  bounded = record {
    results = h.bounded.results;
    events = h.bounded.events;
    n3_sink = h.bounded.n3_sink;
    n6_sink = ground (arith, room, length-push_back p.n6_sink sent);
    reports = h.bounded.reports;
    accounted = h.bounded.accounted;
    countable = h.bounded.countable;
  };
  room = h.room;
}

-- What is stored leaves the sinks and the limits.
stored_sinks :
    (p : Pipeline) (bucket : Option (ℕ × TokenBucketState)) (usage : Option (ℕ × UrrEvaluation))
    (i : Interface)
    → let q = store_usage (store_bucket p bucket) usage in
      leb q.limits.sink_packets (length (sink_of q i))
      ≡ leb p.limits.sink_packets (length (sink_of p i))
stored_sinks p none none i = refl
stored_sinks p none (some (k, u)) n3 = refl
stored_sinks p none (some (k, u)) n6 = refl
stored_sinks p (some (j, next)) none n3 = refl
stored_sinks p (some (j, next)) none n6 = refl
stored_sinks p (some (j, next)) (some (k, u)) n3 = refl
stored_sinks p (some (j, next)) (some (k, u)) n6 = refl

pub commit-IsBounded :
    (p : Pipeline) (packet : Packet) (d : PacketDecision) (far : Far)
    (bucket : Option (ℕ × TokenBucketState)) (usage : Option (ℕ × UrrEvaluation))
    → HasRoom p
    → ReportFits p usage
    → (evaluate_far far packet).valid ≡ true
    → IsBounded (commit p d far (evaluate_far far packet) bucket usage).0
unfolding commit
commit-IsBounded p packet d far bucket usage h fits v =
    let e = evaluate_far far packet in
    let q = store_usage (store_bucket p bucket) usage in
    elim (Bool-cases
      (e.forwarded && leb p.limits.sink_packets (length (sink_of p e.destination)))) [
        | inl full ↦ rw (commit, full) (retain-IsBounded p _ h)
        | inr room ↦ elim (Bool-cases (is_drop far.action)) [
          | inl drops ↦
              rw (commit, room, drops) (retain-IsBounded q _ (stored-HasRoom p bucket usage h fits))
          | inr sends ↦
              let open_sink : leb p.limits.sink_packets (length (sink_of p e.destination)) ≡ false =
                ground (arith, evaluate_far_action far packet v) in
              rw (commit, room, sends)
                (retain-IsBounded (push_sink q e.destination e.packet) _ (
                  push-HasRoom q e.destination e.packet (stored-HasRoom p bucket usage h fits)
                    (stored_sinks p bucket usage e.destination ∙ open_sink)))
        ]
      ]
