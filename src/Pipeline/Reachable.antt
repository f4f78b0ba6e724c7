-- ===== src/Pipeline/Reachable.antt =====
-- The pipelines that installs and packets lead to from a new one, and what holds of them.
use upfpolicyengine.Common.{
  ◌≡◌, refl, sym, ap, subst, ◌∙◌, Option, none, some, has_value, All, WhenSome, some_inj,
}
use upfpolicyengine.Common.Dict.{lookup}
use upfpolicyengine.Common.Text.{Text}
use upfpolicyengine.Types.{CapacityLimits, Result, success, failure}
use upfpolicyengine.Address.{Inet}
use upfpolicyengine.Packet.{Packet}
use upfpolicyengine.Rules.{RuleSet}
use upfpolicyengine.Decision.{PacketDecision}
use upfpolicyengine.RuntimeState.{RuntimeState}
use upfpolicyengine.Validation.{validate_rule_set}
use upfpolicyengine.Validation.Pdrs.{IsValidPdr}
use upfpolicyengine.Validation.Accepts.{IsAccepted, validate_rule_set-IsAccepted}
use upfpolicyengine.Migration.{update_runtime}
use upfpolicyengine.Migration.Agreement.{IsConsistentRuntime, install_runtime-eq-update_runtime}
use upfpolicyengine.Migration.Coverage.{Covers, update_runtime-Covers, covered_still}
use upfpolicyengine.Pipeline.State.{Pipeline, new_pipeline, install}
use upfpolicyengine.Pipeline.Process.{process}
use upfpolicyengine.Pipeline.Effects.{Frame}
use upfpolicyengine.Pipeline.Totality.{Decides, process-Decides}

module _ (inet : Inet) (limits : CapacityLimits) where
  pub data Reachable : Pipeline → Type 0 where
    start : Reachable (new_pipeline limits)
    installs : {p : Pipeline} (rules : RuleSet) → Reachable p → Reachable (install p rules).0
    processes :
        {p q : Pipeline} (packet : Packet) (run_id scenario_id : Text) (d : PacketDecision)
        → Reachable p
        → process inet p packet run_id scenario_id ≡ some (q, d)
        → Reachable q

-- The rules are accepted and have their states, and generations are recorded where states are.
pub record IsInstalled (p : Pipeline) : Type 0 where
  pub accepted : WhenSome p.rules (λ rules. IsAccepted rules p.limits)
  pub covered : WhenSome p.rules (λ rules. Covers rules p.runtime)
  pub consistent : IsConsistentRuntime p.runtime

install_step :
    (p : Pipeline) (rules : RuleSet) (r : Result (Unit {0}))
    → validate_rule_set rules p.limits ≡ r
    → IsInstalled p
    → IsInstalled (install p rules).0
unfolding install
install_step p rules (failure e) same h = rw (same, install) h
install_step p rules (success tt) same h =
    let accepted = (validate_rule_set-IsAccepted rules p.limits).0 same in
    let agrees = install_runtime-eq-update_runtime rules p.runtime h.consistent in
    let (covered, consistent) =
      update_runtime-Covers rules p.runtime h.consistent accepted.qer_ids accepted.urr_ids in
    let installed : (install p rules).0
        ≡ record p { rules = some rules; runtime = update_runtime rules p.runtime } =
      rw (same, install, agrees) in
    subst IsInstalled (sym installed)
      (record { accepted = accepted; covered = covered; consistent = consistent })

Frame-IsInstalled : (p q : Pipeline) → Frame p q → IsInstalled p → IsInstalled q
Frame-IsInstalled p q (limits, rules, qers, urrs, gq, gu) h = record {
  accepted =
      subst (λ o. WhenSome o (λ r. IsAccepted r q.limits)) (sym rules)
        (subst (λ l. WhenSome p.rules (λ r. IsAccepted r l)) (sym limits) h.accepted);
  covered =
      subst (λ o. WhenSome o (λ r. Covers r q.runtime)) (sym rules)
        (covered_still p.rules p.runtime q.runtime qers urrs h.covered);
  consistent = record {
    qers = λ k. ap (λ m. has_value (lookup k m)) gq ∙ (h.consistent.qers k ∙ sym (qers k));
    urrs = λ k. ap (λ m. has_value (lookup k m)) gu ∙ (h.consistent.urrs k ∙ sym (urrs k));
  };
}

ready_of :
    (o : Option RuleSet) (limits : CapacityLimits) (r : RuntimeState)
    → WhenSome o (λ rules. IsAccepted rules limits)
    → WhenSome o (λ rules. Covers rules r)
    → WhenSome o (λ rules. All (IsValidPdr rules) rules.pdrs × Covers rules r)
ready_of none limits r a c = tt
ready_of (some rules) limits r a c = (a.pdrs, c)

-- What a packet comes to on an installed pipeline.
pub installed-Decides :
    (inet : Inet) (p : Pipeline) (packet : Packet) (run_id scenario_id : Text)
    → IsInstalled p
    → Decides inet p packet (process inet p packet run_id scenario_id)
installed-Decides inet p packet run_id scenario_id h =
    process-Decides inet p packet run_id scenario_id
      (ready_of p.rules p.limits p.runtime h.accepted h.covered)

process_step :
    (inet : Inet) (p q : Pipeline) (packet : Packet) (run_id scenario_id : Text)
    (d : PacketDecision)
    → IsInstalled p
    → process inet p packet run_id scenario_id ≡ some (q, d)
    → IsInstalled q
process_step inet p q packet run_id scenario_id d h e =
    let (q', d', e', done) = installed-Decides inet p packet run_id scenario_id h in
    let same = some_inj (sym e' ∙ e) in
    subst IsInstalled (ap (λ r. r.0) same) (Frame-IsInstalled p q' done.1 h)

-- Every pipeline that installs, accepted or refused, and packets lead to from a new one has only
-- accepted rules installed, a state for each of their QERs and URRs, and a generation recorded
-- exactly where it has a state.
pub Reachable-IsInstalled :
    (inet : Inet) (limits : CapacityLimits) (p : Pipeline) → Reachable inet limits p → IsInstalled p
unfolding lookup
Reachable-IsInstalled inet limits _ start = record {
  accepted = tt;
  covered = tt;
  consistent = record { qers = λ k. refl; urrs = λ k. refl };
}
Reachable-IsInstalled inet limits _ (installs {p} rules r) =
    install_step p rules _ refl (Reachable-IsInstalled inet limits p r)
Reachable-IsInstalled inet limits _ (processes {p} {q} packet run_id scenario_id d r e) =
    process_step inet p q packet run_id scenario_id d (Reachable-IsInstalled inet limits p r) e

-- On every pipeline that installs and packets lead to from a new one, a packet gets a decision
-- without a null pointer being dereferenced, and what it changes is by the decision's terminal result:
-- one sink and nothing of the packet but its tunnel when it is forwarded, no sink when it is dropped
-- or refused, no counter and no report when it is over its rate, nothing at all when it is refused
-- for any other reason. PACKET_QUEUE_FULL and SHUTDOWN_DEADLINE do not occur, and the limits, the
-- rules, the generations and the keys of the runtime state stay.
pub Reachable-Decides :
    (inet : Inet) (limits : CapacityLimits) (p : Pipeline) (packet : Packet)
    (run_id scenario_id : Text)
    → Reachable inet limits p
    → Decides inet p packet (process inet p packet run_id scenario_id)
Reachable-Decides inet limits p packet run_id scenario_id r =
    installed-Decides inet p packet run_id scenario_id (Reachable-IsInstalled inet limits p r)
