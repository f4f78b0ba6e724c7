-- ===== src/Pipeline/Bounds.antt =====
-- Each part of `PacketPipeline::process` keeps the pipeline within its capacities, and so do all
-- installs and packets.
use upfpolicyengine.Common.{◌≤◌, ◌≡◌, sym, subst, true, some, arith, some_inj}
use upfpolicyengine.Common.Text.{Text, text_Eq}
use upfpolicyengine.Types.{CapacityLimits, Interface_Eq, u64_max, Result, success, failure}
use upfpolicyengine.Address.{Inet}
use upfpolicyengine.Packet.{Packet}
use upfpolicyengine.Rules.{Pdr, RuleSet}
use upfpolicyengine.Decision.{PacketDecision}
use upfpolicyengine.Validation.{validate_rule_set}
use upfpolicyengine.Migration.{install_runtime}
use upfpolicyengine.Pipeline.State.{Pipeline, install, Flow, go, exit, fault}
use upfpolicyengine.Pipeline.Process.{
  commit, apply_winner, process_flow, process, finish, initial_decision,
}
use upfpolicyengine.Pipeline.Reachable.{Reachable, start, installs, processes}
use upfpolicyengine.Pipeline.Flow.{Keeps, >>=-Keeps}
use upfpolicyengine.Pipeline.Capacity.{IsBounded, HasRoom, Within, commit-IsBounded}
use upfpolicyengine.Pipeline.Room.{
  RoomNext, FarValid, UsageFits, admit-Keeps, select-Keeps, apply_qer-Keeps, apply_far-Keeps,
  apply_urr-Keeps,
}

abbrev Bounded : Pipeline × PacketDecision → Type 0
Bounded r = IsBounded r.0

apply_winner-Keeps :
    (p : Pipeline) (rules : RuleSet) (packet : Packet) (winner : Pdr) (d : PacketDecision)
    → HasRoom p
    → Keeps Within Bounded (apply_winner p rules packet winner d)
unfolding apply_winner
apply_winner-Keeps p rules packet winner d h =
    >>=-Keeps Within RoomNext Bounded _ _ (apply_qer-Keeps p rules packet winner d h)
      λ (p', d', bucket) h'.
        >>=-Keeps Within (FarValid packet) Bounded _ _
          (apply_far-Keeps p' rules packet winner d' h')
          λ (far, e, d'') (same, valid).
            >>=-Keeps Within UsageFits Bounded _ _ (apply_urr-Keeps p' rules packet winner d'' h')
              λ (p'', d''', usage) (h'', fits).
                subst (λ x. IsBounded (commit p'' d''' far x bucket usage).0) (sym same)
                  (commit-IsBounded p'' packet d''' far bucket usage h'' fits
                    (subst (λ x. x.valid ≡ true) same valid))

process_flow-Keeps :
    (inet : Inet) (p : Pipeline) (packet : Packet) (d : PacketDecision)
    → IsBounded p
    → Keeps Within Bounded (process_flow inet p packet d)
unfolding process_flow
process_flow-Keeps inet p packet d h =
    >>=-Keeps Within (λ rules. HasRoom p) Bounded _ _ (admit-Keeps p packet d h)
      λ rules hr.
        >>=-Keeps Within (λ r. Unit {0}) Bounded _ _ (select-Keeps inet p rules packet d hr)
          λ (winner, d') u. apply_winner-Keeps p rules packet winner d' hr

finish-Bounded :
    (m : Flow (Pipeline × PacketDecision)) {q : Pipeline} {d : PacketDecision}
    → Keeps Within Bounded m
    → finish m ≡ some (q, d)
    → IsBounded q
finish-Bounded (go r) h e = subst Bounded (some_inj e) h
finish-Bounded (exit p d) h e = subst Bounded (some_inj e) h
finish-Bounded fault h e = cc e

process-Bounded :
    (inet : Inet) (p q : Pipeline) (packet : Packet) (run_id scenario_id : Text)
    (d : PacketDecision)
    → IsBounded p
    → process inet p packet run_id scenario_id ≡ some (q, d)
    → IsBounded q
unfolding process
process-Bounded inet p q packet run_id scenario_id d h e =
    finish-Bounded _
      (process_flow-Keeps inet p packet (initial_decision p packet run_id scenario_id) h) e

install-IsBounded : (p : Pipeline) (rules : RuleSet) → IsBounded p → IsBounded (install p rules).0
unfolding install
install-IsBounded p rules h = by_result (validate_rule_set rules p.limits)
  where
    by_result :
        (r : Result (Unit {0}))
        → IsBounded
            (elim r as (λ x. Pipeline × Result (Unit {0})) [
              | failure error ↦ (p, failure error)
              | success _ ↦ (
                record p { rules = some rules; runtime = install_runtime rules p.runtime },
                success tt,
              )
            ]).0
    by_result (failure error) = h
    by_result (success _) = record {
      results = h.results;
      events = h.events;
      n3_sink = h.n3_sink;
      n6_sink = h.n6_sink;
      reports = h.reports;
      accounted = h.accounted;
      countable = h.countable;
    }

-- While the limit on results can be counted in 64 bits: whatever is installed and whatever packets
-- come, the results, the events, both sinks and the reports stay within their limits, and every
-- retained decision is recorded by an event or counted as a dropped one.
pub Reachable-IsBounded :
    (inet : Inet) (limits : CapacityLimits) (p : Pipeline)
    → limits.results ≤ u64_max
    → Reachable inet limits p
    → IsBounded p
Reachable-IsBounded inet limits _ small start = record {
  results = omega arith;
  events = omega arith;
  n3_sink = omega arith;
  n6_sink = omega arith;
  reports = omega arith;
  accounted = omega arith;
  countable = small;
}
Reachable-IsBounded inet limits _ small (installs {p} rules r) =
    install-IsBounded p rules (Reachable-IsBounded inet limits p small r)
Reachable-IsBounded inet limits _ small (processes {p} {q} packet run_id scenario_id d r e) =
    process-Bounded inet p q packet run_id scenario_id d (Reachable-IsBounded inet limits p small r)
      e
