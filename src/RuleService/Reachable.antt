-- ===== src/RuleService/Reachable.antt =====
-- The states that calls of a `RuleService` lead to (src/application/rule_service.cpp), with the writes
-- through its accessor `runtime()` (include/upf/application/rule_service.hpp).
use upfpolicyengine.Common.{
  ℕ, ◌≡◌, refl, sym, subst, ◌∙◌, Bool, true, false, inl, inr, none, present_and, absent_or,
  WhenSome, nat_eq, leb, ◌==◌, Bool-cases, ◌&&◌, ◌||◌,
}
use upfpolicyengine.Common.Dict.{SameKeys, lookup}
use upfpolicyengine.Common.Text.{Text, text_Eq, is_empty}
use upfpolicyengine.Types.{CapacityLimits, Result}
use upfpolicyengine.Rules.{RuleSet}
use upfpolicyengine.RuntimeState.{RuntimeState}
use upfpolicyengine.Validation.Accepts.{IsAccepted}
use upfpolicyengine.Migration.Agreement.{IsConsistentRuntime}
use upfpolicyengine.Migration.Coverage.{Covers, update_runtime-Covers, covered_still}
use upfpolicyengine.RuleService.{
  RuleService, new_service, update, remove, mark_applied, write_runtime,
}
use upfpolicyengine.RuleService.Updates.{Updates, updated, update-Updates}

-- A write that keeps which rules have a state and which have a generation.
pub record KeepsKeys (r r' : RuntimeState) : Type 0 where
  pub qers : SameKeys r.qers r'.qers
  pub urrs : SameKeys r.urrs r'.urrs
  pub qer_generations : SameKeys r.qer_generations r'.qer_generations
  pub urr_generations : SameKeys r.urr_generations r'.urr_generations

KeepsKeys-IsConsistentRuntime :
    (r r' : RuntimeState) → KeepsKeys r r' → IsConsistentRuntime r → IsConsistentRuntime r'
KeepsKeys-IsConsistentRuntime r r' k h = record {
  qers = λ j. k.qer_generations j ∙ (h.qers j ∙ sym (k.qers j));
  urrs = λ j. k.urr_generations j ∙ (h.urrs j ∙ sym (k.urrs j));
}

-- The services that calls lead to from a new one, and whether each write through `runtime()` has
-- kept which rules have a state and a generation.
pub data Reachable (limits : CapacityLimits) : Bool → RuleService → Type 0 where
  start : Reachable limits true (new_service limits)
  updates :
      {kept : Bool} {s : RuleService} (update_id : Text) (candidate : RuleSet)
      → Reachable limits kept s
      → Reachable limits kept (update s update_id candidate).0
  removes :
      {kept : Bool} {s : RuleService} (update_id : Text) (version : ℕ)
      → Reachable limits kept s
      → Reachable limits kept (remove s update_id version).0
  marks :
      {kept : Bool} {s : RuleService} (update_id : Text) (version : ℕ)
      → Reachable limits kept s
      → Reachable limits kept (mark_applied s update_id version)
  stores :
      {kept : Bool} {s : RuleService} (written : RuntimeState)
      → KeepsKeys s.runtime written
      → Reachable limits kept s
      → Reachable limits kept (write_runtime s written)
  writes :
      {kept : Bool} {s : RuleService} (written : RuntimeState)
      → Reachable limits kept s
      → Reachable limits false (write_runtime s written)

-- Each QER and URR of the active rules has a state, and generations are recorded where states are.
pub record HasStates (s : RuleService) : Type 0 where
  pub covers : WhenSome s.active (λ rules. Covers rules s.runtime)
  pub consistent : IsConsistentRuntime s.runtime

-- The states, unless a write has changed their keys.
abbrev pub States : Bool → RuleService → Type 0
States true s = HasStates s
States false s = Unit

-- The intended rules are the active ones, acceptable, and have their states.
pub record IsServed (limits : CapacityLimits) (kept : Bool) (s : RuleService) : Type 0 where
  pub limited : s.limits ≡ limits
  pub agrees : s.intended ≡ s.active
  pub accepted : WhenSome s.active (λ rules. IsAccepted rules limits)
  pub states : States kept s

updated-States :
    (kept : Bool) (s : RuleService) (update_id : Text) (candidate : RuleSet)
    → IsAccepted candidate s.limits
    → States kept s
    → States kept (updated s update_id candidate)
updated-States false s update_id candidate accepted h = tt
updated-States true s update_id candidate accepted h =
    let (covers, consistent) =
      update_runtime-Covers candidate s.runtime h.consistent accepted.qer_ids accepted.urr_ids in
    record { covers = covers; consistent = consistent }

update_step :
    (limits : CapacityLimits) (kept : Bool) (s : RuleService) (update_id : Text)
    (candidate : RuleSet) (r : RuleService × Result (Unit {0}))
    → Updates s update_id candidate r
    → IsServed limits kept s
    → IsServed limits kept r.0
update_step limits kept s update_id candidate r (inr (refused, (e, same))) h =
    subst (λ x. IsServed limits kept x.0) (sym same) h
update_step limits kept s update_id candidate r (inl (a, same)) h =
    subst (λ x. IsServed limits kept x.0) (sym same)
      (record {
        limited = h.limited;
        agrees = refl;
        accepted = subst (λ l. IsAccepted candidate l) h.limited a.accepted;
        states = updated-States kept s update_id candidate a.accepted h.states;
      })

removed-States :
    (kept : Bool) (s : RuleService) (update_id : Text)
    → States kept s
    → States kept (record s { intended = none; active = none; latest_update_id = update_id })
removed-States false s update_id h = tt
removed-States true s update_id h = record { covers = tt; consistent = h.consistent }

remove_step :
    (limits : CapacityLimits) (kept : Bool) (s : RuleService) (update_id : Text) (version : ℕ)
    → IsServed limits kept s
    → IsServed limits kept (remove s update_id version).0
unfolding remove
remove_step limits kept s update_id version h =
    elim (Bool-cases
      (absent_or s.active (λ active. is_empty update_id || leb version active.version))) [
        | inl refused ↦ rw (remove, refused) h
        | inr gone ↦
            rw (remove, gone)
              (record {
                limited = h.limited;
                agrees = refl;
                accepted = tt;
                states = removed-States kept s update_id h.states;
              })
      ]

marked-States :
    (kept : Bool) (s : RuleService) (version : ℕ)
    → States kept s
    → States kept (record s { applied_version = version })
marked-States false s version h = tt
marked-States true s version h = record { covers = h.covers; consistent = h.consistent }

mark_step :
    (limits : CapacityLimits) (kept : Bool) (s : RuleService) (update_id : Text) (version : ℕ)
    → IsServed limits kept s
    → IsServed limits kept (mark_applied s update_id version)
unfolding mark_applied
mark_step limits kept s update_id version h =
    elim (Bool-cases (
      present_and s.intended
        (λ intended. update_id == s.latest_update_id && nat_eq version intended.version))) [
          | inl fits ↦
              rw (mark_applied, fits)
                (record {
                  limited = h.limited;
                  agrees = h.agrees;
                  accepted = h.accepted;
                  states = marked-States kept s version h.states;
                })
          | inr stale ↦ rw (mark_applied, stale) h
        ]

stored-States :
    (kept : Bool) (s : RuleService) (written : RuntimeState)
    → KeepsKeys s.runtime written
    → States kept s
    → States kept (write_runtime s written)
stored-States false s written k h = tt
stored-States true s written k h = record {
  covers = covered_still s.active s.runtime written k.qers k.urrs h.covers;
  consistent = KeepsKeys-IsConsistentRuntime s.runtime written k h.consistent;
}

-- In every state that `update`, `remove`, `markApplied` and writes through `runtime()` lead to, in
-- any order, the limits are the first ones, the intended rules are the active ones, and they are
-- acceptable; and if each of those writes kept which rules have a state and a generation, each of
-- their QERs and URRs has a state, and generations are recorded exactly where states are.
pub Reachable-IsServed :
    (limits : CapacityLimits) (kept : Bool) (s : RuleService)
    → Reachable limits kept s
    → IsServed limits kept s
unfolding lookup
Reachable-IsServed limits _ _ start = record {
  limited = refl;
  agrees = refl;
  accepted = tt;
  states = record { covers = tt; consistent = record { qers = λ k. refl; urrs = λ k. refl } };
}
Reachable-IsServed limits _ _ (updates {kept} {s} update_id candidate r) =
    update_step limits kept s update_id candidate _ (update-Updates s update_id candidate)
      (Reachable-IsServed limits kept s r)
Reachable-IsServed limits _ _ (removes {kept} {s} update_id version r) =
    remove_step limits kept s update_id version (Reachable-IsServed limits kept s r)
Reachable-IsServed limits _ _ (marks {kept} {s} update_id version r) =
    mark_step limits kept s update_id version (Reachable-IsServed limits kept s r)
Reachable-IsServed limits _ _ (stores {kept} {s} written k r) =
    let h = Reachable-IsServed limits kept s r in
    record {
      limited = h.limited;
      agrees = h.agrees;
      accepted = h.accepted;
      states = stored-States kept s written k h.states;
    }
Reachable-IsServed limits _ _ (writes {kept} {s} written r) =
    let h = Reachable-IsServed limits kept s r in
    record { limited = h.limited; agrees = h.agrees; accepted = h.accepted; states = tt }
