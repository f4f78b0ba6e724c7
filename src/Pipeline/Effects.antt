-- ===== src/Pipeline/Effects.antt =====
-- What a packet may change in the pipeline, by its terminal result.
use upfpolicyengine.Common.{
  ℕ, ◌≡◌, refl, inl, inr, true, none, some, List, push_back, arith, has_value, ltb, length,
  Bool-cases,
}
use upfpolicyengine.Common.Dict.{Dict, SameKeys, lookup, insert, lookup-insert}
use upfpolicyengine.Common.Text.{Text}
use upfpolicyengine.Packet.{Packet, TunnelMetadata}
use upfpolicyengine.Decision.{
  PacketDecision, TerminalResult, forwarded_to_n3, forwarded_to_n6, far_dropped, no_match,
  malformed_packet, gate_closed, rate_limited, packet_queue_full, shutdown_deadline,
  arithmetic_error, capacity_error,
}
use upfpolicyengine.RuntimeState.{RuntimeState}
use upfpolicyengine.Pipeline.State.{Pipeline, retain}

-- The part of the pipeline that packets are for: without the decisions and events that record them.
pub record Store : Type 0 where
  pub runtime : RuntimeState
  pub n3_sink : List Packet
  pub n6_sink : List Packet
  pub reports : List Text

abbrev pub store_of : Pipeline → Store
store_of p = record {
  runtime = p.runtime;
  n3_sink = p.n3_sink;
  n6_sink = p.n6_sink;
  reports = p.reports;
}

abbrev pub SameSinks : Store → Store → Type 0
SameSinks p q = (q.n3_sink ≡ p.n3_sink) × (q.n6_sink ≡ p.n6_sink)

-- A forwarded packet goes to one sink, with nothing changed but its tunnel; a packet over its rate
-- can change the buckets only; any other refusal changes nothing; and two results never occur.
abbrev pub Effect : TerminalResult → Packet → Store → Store → Type 0
Effect forwarded_to_n3 packet p q =
    (t : TunnelMetadata) × (q.n3_sink ≡ push_back p.n3_sink (record packet { tunnel = some t }))
    × (q.n6_sink ≡ p.n6_sink)
Effect forwarded_to_n6 packet p q =
    (q.n6_sink ≡ push_back p.n6_sink (record packet { tunnel = none })) × (q.n3_sink ≡ p.n3_sink)
Effect far_dropped packet p q = SameSinks p q
Effect rate_limited packet p q =
    (q.runtime.urrs ≡ p.runtime.urrs) × (q.reports ≡ p.reports) × SameSinks p q
Effect packet_queue_full packet p q = ⊥
Effect shutdown_deadline packet p q = ⊥
Effect no_match packet p q = q ≡ p
Effect malformed_packet packet p q = q ≡ p
Effect gate_closed packet p q = q ≡ p
Effect arithmetic_error packet p q = q ≡ p
Effect capacity_error packet p q = q ≡ p

-- What every packet leaves alone: the limits, the rules, the generations, and which rules have a
-- state.
abbrev pub Frame : Pipeline → Pipeline → Type 0
Frame p q =
    (q.limits ≡ p.limits)
    × (q.rules ≡ p.rules)
    × SameKeys p.runtime.qers q.runtime.qers
    × SameKeys p.runtime.urrs q.runtime.urrs
    × (q.runtime.qer_generations ≡ p.runtime.qer_generations)
    × (q.runtime.urr_generations ≡ p.runtime.urr_generations)

abbrev pub Done : Packet → Pipeline → Pipeline → PacketDecision → Type 0
Done packet p q d = Effect d.terminal_result packet (store_of p) (store_of q) × Frame p q

-- What `retain` adds is neither effect nor frame.
pub retain-Done :
    (packet : Packet) (p q : Pipeline) (d : PacketDecision)
    → Done packet p q d
    → Done packet p (retain q d).0 (retain q d).1
unfolding retain
retain-Done packet p q d h = elim (Bool-cases (ltb (length q.events) q.limits.events)) [
  | inl e ↦ rw (e, retain) h
  | inr e ↦ rw (e, retain) h
]

pub Frame-refl : (p : Pipeline) → Frame p p
Frame-refl p = (refl, refl, (λ k. refl), (λ k. refl), refl, refl)

-- Storing at a key that is there adds no key.
pub insert-SameKeys {ℓ} :
    {V : Type ℓ} (k : ℕ) (v : V) (m : Dict V)
    → has_value (lookup k m) ≡ true
    → SameKeys m (insert k v m)
insert-SameKeys k v m h j = ground (arith, lookup-insert k j v m)
