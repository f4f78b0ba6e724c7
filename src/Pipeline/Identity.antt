-- ===== src/Pipeline/Identity.antt =====
-- Whose decision `PacketPipeline::process` makes: what names the run, the packet, the time, the
-- interface and the rule set is set at its head and stays through all of its parts.
use upfpolicyengine.Common.{
  ℕ, ◌≡◌, refl, sym, ap, ◌∙◌, inl, inr, not, ◌&&◌, ◌||◌, Option, none, some, leb, ltb, length,
  Bool-cases, some_inj, ◌==◌, [],
}
use upfpolicyengine.Common.Dict.{index}
use upfpolicyengine.Common.Text.{Text, text_Eq}
use upfpolicyengine.Types.{RuleId, Interface, Interface_Eq, is_drop}
use upfpolicyengine.Address.{Inet}
use upfpolicyengine.Packet.{Packet}
use upfpolicyengine.Rules.{Pdr, Far, Qer, RuleSet, find_far, find_qer, find_urr}
use upfpolicyengine.Decision.{PacketDecision}
use upfpolicyengine.RuntimeState.{TokenBucketState, default_bucket, default_counter}
use upfpolicyengine.Qer.{QerEvaluation, evaluate_qer}
use upfpolicyengine.Far.{FarEvaluation, evaluate_far}
use upfpolicyengine.Urr.{UrrEvaluation, evaluate_urr}
use upfpolicyengine.Pipeline.State.{
  Pipeline, retain, valid_packet, Flow, go, exit, fault, dereference,
}
use upfpolicyengine.Pipeline.Select.{scan}
use upfpolicyengine.Pipeline.Process.{
  admit, select, settle_qer, apply_qer, apply_far, settle_urr, apply_urr, sink_of, commit,
  apply_winner, process_flow, process, finish, initial_decision,
}
use upfpolicyengine.Pipeline.Flow.{Keeps, >>=-Keeps, if-Keeps, option-Keeps, dereference-Keeps}

pub record Identity : Type 0 where
  pub run_id : Text
  pub scenario_id : Text
  pub packet_id : Text
  pub session_id : Text
  pub arrival_time_micros : ℕ
  pub ingress : Interface
  pub ruleset_version : ℕ

abbrev pub identity : PacketDecision → Identity
identity d = record {
  run_id = d.run_id;
  scenario_id = d.scenario_id;
  packet_id = d.packet_id;
  session_id = d.session_id;
  arrival_time_micros = d.arrival_time_micros;
  ingress = d.ingress;
  ruleset_version = d.ruleset_version;
}

retain-identity : (p : Pipeline) (d : PacketDecision) → identity (retain p d).1 ≡ identity d
unfolding retain
retain-identity p d = elim (Bool-cases (ltb (length p.events) p.limits.events)) [
  | inl e ↦ rw (e, retain) refl
  | inr e ↦ rw (e, retain) refl
]

module _ (i : Identity) where
  abbrev Of : Pipeline → PacketDecision → Type 0
  Of p d = identity d ≡ i

  retained : (p : Pipeline) (d : PacketDecision) → identity d ≡ i → identity (retain p d).1 ≡ i
  retained p d h = retain-identity p d ∙ h

  abbrev Second {ℓ} : {A : Type ℓ} → Pipeline × PacketDecision × A → Type 0
  Second r = identity r.1 ≡ i

  admit-Of :
      (p : Pipeline) (packet : Packet) (d : PacketDecision)
      → identity d ≡ i
      → Keeps Of (λ rules. Unit {0}) (admit p packet d)
  unfolding admit
  admit-Of p packet d h =
      if-Keeps Of (λ rules. Unit {0}) (leb p.limits.results (length p.decisions)) _ _ (λ full. h)
        λ room.
          option-Keeps Of (λ rules. Unit {0}) p.rules _ _ (retained p _ h)
            λ rules e.
              if-Keeps Of (λ r. Unit {0})
                (not (valid_packet packet) || not (packet.session_id == rules.session_id)) _ _
                (λ refused. retained p _ h) (λ fits. tt)

  select-Of :
      (inet : Inet) (p : Pipeline) (rules : RuleSet) (packet : Packet) (d : PacketDecision)
      → identity d ≡ i
      → Keeps Of (λ r. identity r.1 ≡ i) (select inet p rules packet d)
  unfolding select
  select-Of inet p rules packet d h =
      option-Keeps Of (λ r. identity r.1 ≡ i) (scan inet packet rules.pdrs [] none).1 _ _
        (retained p _ h) (λ pdr e. h)

  settle_qer-Of :
      (p : Pipeline) (d : PacketDecision) (id : RuleId) (qer : Qer) (e : QerEvaluation)
      → identity d ≡ i
      → Keeps Of Second (settle_qer p d id qer e)
  unfolding settle_qer
  settle_qer-Of p d id qer e h =
      if-Keeps Of Second e.decision.allowed _ _ (λ ok. h) (λ refused. retained _ _ h)

  apply_qer-Of :
      (p : Pipeline) (rules : RuleSet) (packet : Packet) (winner : Pdr) (d : PacketDecision)
      → identity d ≡ i
      → Keeps Of Second (apply_qer p rules packet winner d)
  unfolding apply_qer
  apply_qer-Of p rules packet winner d h = option-Keeps Of Second winner.qer_id _ _ h λ id e.
      >>=-Keeps Of (λ a. Unit {0}) Second (dereference (find_qer rules id)) _
        (dereference-Keeps Of (find_qer rules id))
        λ qer u.
          let (bucket, buckets) = index qer.id.value default_bucket p.runtime.qers in
          settle_qer-Of (record p { runtime = record p.runtime { qers = buckets } }) d id qer
            (evaluate_qer qer bucket packet.payload_bytes packet.arrival_time_micros) h

  apply_far-Of :
      (p : Pipeline) (rules : RuleSet) (packet : Packet) (winner : Pdr) (d : PacketDecision)
      → identity d ≡ i
      → Keeps Of (λ r. identity r.2 ≡ i) (apply_far p rules packet winner d)
  unfolding apply_far
  apply_far-Of p rules packet winner d h =
      >>=-Keeps Of (λ a. Unit {0}) (λ r. identity r.2 ≡ i)
        (dereference (find_far rules winner.far_id)) _
        (dereference-Keeps Of (find_far rules winner.far_id))
        λ far u.
          if-Keeps Of (λ r. identity r.2 ≡ i) (not (evaluate_far far packet).valid) _ _
            (λ refused. retained p _ h) (λ ok. h)

  settle_urr-Of :
      (p : Pipeline) (d : PacketDecision) (id : RuleId) (usage : UrrEvaluation)
      → identity d ≡ i
      → Keeps Of Second (settle_urr p d id usage)
  unfolding settle_urr
  settle_urr-Of p d id usage h =
      if-Keeps Of Second usage.overflow _ _ (λ over. retained p _ h)
        λ counted.
          if-Keeps Of Second (usage.report_generated && leb p.limits.reports (length p.reports)) _ _
            (λ full. retained p _ h) (λ fits. h)

  apply_urr-Of :
      (p : Pipeline) (rules : RuleSet) (packet : Packet) (winner : Pdr) (d : PacketDecision)
      → identity d ≡ i
      → Keeps Of Second (apply_urr p rules packet winner d)
  unfolding apply_urr
  apply_urr-Of p rules packet winner d h = option-Keeps Of Second winner.urr_id _ _ h λ id e.
      >>=-Keeps Of (λ a. Unit {0}) Second (dereference (find_urr rules id)) _
        (dereference-Keeps Of (find_urr rules id))
        λ urr u.
          let (counter, counters) = index urr.id.value default_counter p.runtime.urrs in
          settle_urr-Of (record p { runtime = record p.runtime { urrs = counters } }) d id
            (evaluate_urr urr counter packet.payload_bytes rules.session_id rules.version) h

  commit-Of :
      (p : Pipeline) (d : PacketDecision) (far : Far) (e : FarEvaluation)
      (bucket : Option (ℕ × TokenBucketState)) (usage : Option (ℕ × UrrEvaluation))
      → identity d ≡ i
      → identity (commit p d far e bucket usage).1 ≡ i
  unfolding commit
  commit-Of p d far e bucket usage h =
      elim (Bool-cases
        (e.forwarded && leb p.limits.sink_packets (length (sink_of p e.destination)))) [
          | inl full ↦ rw (full, commit) (retained _ _ h)
          | inr room ↦ elim (Bool-cases (is_drop far.action)) [
            | inl dropped ↦ rw (room, dropped, commit) (retained _ _ h)
            | inr forwarded ↦ rw (room, forwarded, commit) (retained _ _ h)
          ]
        ]

  process_flow-Of :
      (inet : Inet) (p : Pipeline) (packet : Packet) (d : PacketDecision)
      → identity d ≡ i
      → Keeps Of (λ r. identity r.1 ≡ i) (process_flow inet p packet d)
  unfolding process_flow apply_winner
  process_flow-Of inet p packet d h =
      >>=-Keeps Of (λ r. Unit {0}) (λ r. identity r.1 ≡ i) _ _ (admit-Of p packet d h)
        λ rules u.
          >>=-Keeps Of (λ r. identity r.1 ≡ i) (λ r. identity r.1 ≡ i) _ _
            (select-Of inet p rules packet d h)
            λ (winner, d1) h1.
              >>=-Keeps Of Second (λ r. identity r.1 ≡ i) _ _
                (apply_qer-Of p rules packet winner d1 h1)
                λ (p2, d2, bucket) h2.
                  >>=-Keeps Of (λ r. identity r.2 ≡ i) (λ r. identity r.1 ≡ i) _ _
                    (apply_far-Of p2 rules packet winner d2 h2)
                    λ (far, e, d3) h3.
                      >>=-Keeps Of Second (λ r. identity r.1 ≡ i) _ _
                        (apply_urr-Of p2 rules packet winner d3 h3)
                        λ (p4, d4, usage) h4. commit-Of p4 d4 far e bucket usage h4

finish-Of :
    (i : Identity) (m : Flow (Pipeline × PacketDecision)) {q : Pipeline} {d : PacketDecision}
    → Keeps (Of i) (λ r. identity r.1 ≡ i) m
    → finish m ≡ some (q, d)
    → identity d ≡ i
finish-Of i (go r) h e = ap (λ r. identity r.1) (sym (some_inj e)) ∙ h
finish-Of i (exit p d) h e = ap (λ r. identity r.1) (sym (some_inj e)) ∙ h
finish-Of i fault h e = cc e

-- The decision of a packet names the run and the scenario it was asked for, the packet with its
-- session, its arrival time and its interface, and the version of the installed rules.
pub process-identity :
    (inet : Inet) (p q : Pipeline) (packet : Packet) (run_id scenario_id : Text)
    (d : PacketDecision)
    → process inet p packet run_id scenario_id ≡ some (q, d)
    → identity d ≡ identity (initial_decision p packet run_id scenario_id)
unfolding process
process-identity inet p q packet run_id scenario_id d e =
    finish-Of (identity (initial_decision p packet run_id scenario_id))
      (process_flow inet p packet (initial_decision p packet run_id scenario_id))
      (process_flow-Of (identity (initial_decision p packet run_id scenario_id)) inet p packet
        (initial_decision p packet run_id scenario_id) refl)
      e
