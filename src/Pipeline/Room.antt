-- ===== src/Pipeline/Room.antt =====
-- The parts of `PacketPipeline::process` before it commits keep room for the decision.
use upfpolicyengine.Common.{
  ℕ, ◌≡◌, refl, true, not, ◌&&◌, ◌||◌, Option, none, some, [], arith, leb, length, not-eq-false,
  ◌==◌,
}
use upfpolicyengine.Common.Dict.{index}
use upfpolicyengine.Common.Text.{text_Eq}
use upfpolicyengine.Types.{RuleId, Interface_Eq}
use upfpolicyengine.Address.{Inet}
use upfpolicyengine.Packet.{Packet}
use upfpolicyengine.Rules.{Pdr, Far, Qer, RuleSet, find_far, find_qer, find_urr}
use upfpolicyengine.Decision.{PacketDecision, malformed_packet, arithmetic_error, capacity_error}
use upfpolicyengine.RuntimeState.{RuntimeState, TokenBucketState, default_bucket, default_counter}
use upfpolicyengine.Qer.{QerEvaluation, evaluate_qer}
use upfpolicyengine.Far.{FarEvaluation, evaluate_far}
use upfpolicyengine.Urr.{UrrEvaluation, evaluate_urr}
use upfpolicyengine.Pipeline.State.{Pipeline, valid_packet, go, exit_retained, dereference}
use upfpolicyengine.Pipeline.Select.{scan}
use upfpolicyengine.Pipeline.Process.{
  admit, select, store_refusal, settle_qer, apply_qer, apply_far, settle_urr, apply_urr,
}
use upfpolicyengine.Pipeline.Flow.{Keeps, >>=-Keeps, if-Keeps, option-Keeps, dereference-Keeps}
use upfpolicyengine.Pipeline.Capacity.{
  IsBounded, HasRoom, Within, retain-IsBounded, runtime-HasRoom, store_refusal-HasRoom, ReportFits,
}

retained-Keeps {ℓ} :
    {A : Type ℓ} (P : A → Type 0) (p : Pipeline) (d : PacketDecision)
    → HasRoom p
    → Keeps Within P (exit_retained {A = A} p d)
retained-Keeps P p d h = retain-IsBounded p d h

pub admit-Keeps :
    (p : Pipeline) (packet : Packet) (d : PacketDecision)
    → IsBounded p
    → Keeps Within (λ rules. HasRoom p) (admit p packet d)
unfolding admit
admit-Keeps p packet d h =
    let P : RuleSet → Type 0 = λ rules. HasRoom p in
    if-Keeps Within P (leb p.limits.results (length p.decisions)) _ _ (λ full. h)
      λ room.
        let hr : HasRoom p = record { bounded = h; room = ground arith } in
        option-Keeps Within P p.rules _ _ (retain-IsBounded p _ hr) λ rules e.
          if-Keeps Within P
            (not (valid_packet packet) || not (packet.session_id == rules.session_id))
            (exit_retained p (record d { terminal_result = malformed_packet })) (go rules)
            (λ refused. retained-Keeps P p (record d { terminal_result = malformed_packet }) hr)
            (λ fits. hr)

pub select-Keeps :
    (inet : Inet) (p : Pipeline) (rules : RuleSet) (packet : Packet) (d : PacketDecision)
    → HasRoom p
    → Keeps Within (λ r. Unit {0}) (select inet p rules packet d)
unfolding select
select-Keeps inet p rules packet d h =
    option-Keeps Within (λ r. Unit {0}) (scan inet packet rules.pdrs [] none).1 _ _
      (retain-IsBounded p _ h) (λ pdr e. tt)

abbrev pub RoomNext : Pipeline × PacketDecision × Option (ℕ × TokenBucketState) → Type 0
RoomNext r = HasRoom r.0

settle_qer-Keeps :
    (p : Pipeline) (d : PacketDecision) (id : RuleId) (qer : Qer) (e : QerEvaluation)
    → HasRoom p
    → Keeps Within RoomNext (settle_qer p d id qer e)
unfolding settle_qer
settle_qer-Keeps p d id qer e h =
    let p' = store_refusal e.failure p qer.id.value e.next in
    let d' : PacketDecision = record d { qer = e.decision; terminal_result = e.failure } in
    if-Keeps Within RoomNext e.decision.allowed
      (go (p, record d { qer = e.decision }, some (id.value, e.next))) (exit_retained p' d')
      (λ ok. h)
      (λ refused.
        retained-Keeps RoomNext p' d' (store_refusal-HasRoom e.failure p qer.id.value e.next h))

pub apply_qer-Keeps :
    (p : Pipeline) (rules : RuleSet) (packet : Packet) (winner : Pdr) (d : PacketDecision)
    → HasRoom p
    → Keeps Within RoomNext (apply_qer p rules packet winner d)
unfolding apply_qer
apply_qer-Keeps p rules packet winner d h = option-Keeps Within RoomNext winner.qer_id _ _ h λ id e.
    >>=-Keeps Within (λ a. Unit {0}) RoomNext (dereference (find_qer rules id)) _
      (dereference-Keeps Within (find_qer rules id))
      λ qer u.
        let (bucket, buckets) = index qer.id.value default_bucket p.runtime.qers in
        let runtime : RuntimeState = record p.runtime { qers = buckets } in
        settle_qer-Keeps (record p { runtime = runtime }) d id qer
          (evaluate_qer qer bucket packet.payload_bytes packet.arrival_time_micros)
          (runtime-HasRoom p runtime h)

abbrev pub FarValid : Packet → Far × FarEvaluation × PacketDecision → Type 0
FarValid packet (far, e, d) = (e ≡ evaluate_far far packet) × (e.valid ≡ true)

pub apply_far-Keeps :
    (p : Pipeline) (rules : RuleSet) (packet : Packet) (winner : Pdr) (d : PacketDecision)
    → HasRoom p
    → Keeps Within (FarValid packet) (apply_far p rules packet winner d)
unfolding apply_far
apply_far-Keeps p rules packet winner d h =
    >>=-Keeps Within (λ a. Unit {0}) (FarValid packet) (dereference (find_far rules winner.far_id))
      _ (dereference-Keeps Within (find_far rules winner.far_id))
      λ far u.
        let e = evaluate_far far packet in
        let d' : PacketDecision = record d { terminal_result = malformed_packet } in
        let d'' : PacketDecision = record d {
          far = record {
            applicable = true;
            far_id = far.id.value;
            action = far.action;
            destination = e.destination;
            before = packet.tunnel;
            after = e.packet.tunnel;
          };
        } in
        if-Keeps Within (FarValid packet) (not e.valid) (exit_retained p d') (go (far, e, d''))
          (λ refused. retained-Keeps (FarValid packet) p d' h)
          (λ ok. (refl, not-eq-false e.valid ok))

abbrev pub UsageFits : Pipeline × PacketDecision × Option (ℕ × UrrEvaluation) → Type 0
UsageFits r = HasRoom r.0 × ReportFits r.0 r.2

settle_urr-Keeps :
    (p : Pipeline) (d : PacketDecision) (id : RuleId) (usage : UrrEvaluation)
    → HasRoom p
    → Keeps Within UsageFits (settle_urr p d id usage)
unfolding settle_urr
settle_urr-Keeps p d id usage h =
    let over : PacketDecision = record d {
      urr = usage.decision;
      terminal_result = arithmetic_error;
    } in
    let full : PacketDecision = record d {
      urr = usage.decision;
      terminal_result = capacity_error;
    } in
    if-Keeps Within UsageFits usage.overflow (exit_retained p over) _
      (λ e. retained-Keeps UsageFits p over h)
      λ counted.
        if-Keeps Within UsageFits
          (usage.report_generated && leb p.limits.reports (length p.reports)) (exit_retained p full)
          (go (p, record d { urr = usage.decision }, some (id.value, usage)))
          (λ e. retained-Keeps UsageFits p full h) (λ fits. (h, fits))

pub apply_urr-Keeps :
    (p : Pipeline) (rules : RuleSet) (packet : Packet) (winner : Pdr) (d : PacketDecision)
    → HasRoom p
    → Keeps Within UsageFits (apply_urr p rules packet winner d)
unfolding apply_urr
apply_urr-Keeps p rules packet winner d h =
    option-Keeps Within UsageFits winner.urr_id _ _ (h, tt)
      λ id e.
        >>=-Keeps Within (λ a. Unit {0}) UsageFits (dereference (find_urr rules id)) _
          (dereference-Keeps Within (find_urr rules id))
          λ urr u.
            let (counter, counters) = index urr.id.value default_counter p.runtime.urrs in
            let runtime : RuntimeState = record p.runtime { urrs = counters } in
            settle_urr-Keeps (record p { runtime = runtime }) d id
              (evaluate_urr urr counter packet.payload_bytes rules.session_id rules.version)
              (runtime-HasRoom p runtime h)
