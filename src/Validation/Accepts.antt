-- ===== src/Validation/Accepts.antt =====
-- What validateRuleSet (src/domain/validation.cpp) accepts, as a description of rule sets.
use upfpolicyengine.Common.{◌≤◌, ◌≡◌, ◌≢◌, ◌↔◌, [], arith, length, All, AllPairs}
use upfpolicyengine.Types.{Interface_Eq, CapacityLimits, success}
use upfpolicyengine.Rules.{RuleSet, Pdr_HasId, Far_HasId, Qer_HasId, Urr_HasId}
use upfpolicyengine.Validation.Identifiers.{HasUniqueIds, unique_ids_lem}
use upfpolicyengine.Validation.Pdrs.{IsValidPdr, IsDisjoint, validate_pdrs-All}
use upfpolicyengine.Validation.{validate_rule_set}

-- A rule set that can be installed: named and numbered, within capacity, with unique identifiers,
-- valid PDRs, and no two PDRs of one precedence whose match spaces overlap.
pub record IsAccepted (rules : RuleSet) (limits : CapacityLimits) : Type 0 where
  pub named : rules.session_id ≢ []
  pub numbered : rules.version ≢ 0
  pub pdr_capacity : length rules.pdrs ≤ limits.rules_per_type
  pub far_capacity : length rules.fars ≤ limits.rules_per_type
  pub qer_capacity : length rules.qers ≤ limits.rules_per_type
  pub urr_capacity : length rules.urrs ≤ limits.rules_per_type
  pub pdr_ids : HasUniqueIds rules.pdrs
  pub far_ids : HasUniqueIds rules.fars
  pub qer_ids : HasUniqueIds rules.qers
  pub urr_ids : HasUniqueIds rules.urrs
  pub pdrs : All (IsValidPdr rules) rules.pdrs
  pub disjoint : AllPairs IsDisjoint rules.pdrs

success-IsAccepted :
    (rules : RuleSet) (limits : CapacityLimits)
    → validate_rule_set rules limits ≡ success tt
    → IsAccepted rules limits
unfolding validate_rule_set
success-IsAccepted rules limits h =
    let pdrs = (validate_pdrs-All rules rules.pdrs).0 (ground (arith, h)) in
    record {
      named = ground arith;
      numbered = ground arith;
      pdr_capacity = ground arith;
      far_capacity = ground arith;
      qer_capacity = ground arith;
      urr_capacity = ground arith;
      pdr_ids = (unique_ids_lem rules.pdrs).0 (ground arith);
      far_ids = (unique_ids_lem rules.fars).0 (ground arith);
      qer_ids = (unique_ids_lem rules.qers).0 (ground arith);
      urr_ids = (unique_ids_lem rules.urrs).0 (ground arith);
      pdrs = pdrs.0;
      disjoint = pdrs.1;
    }

success_of_accepted :
    (rules : RuleSet) (limits : CapacityLimits)
    → IsAccepted rules limits
    → validate_rule_set rules limits ≡ success tt
unfolding validate_rule_set
success_of_accepted rules limits a = ground (
  arith,
  a.named,
  a.numbered,
  a.pdr_capacity,
  a.far_capacity,
  a.qer_capacity,
  a.urr_capacity,
  (unique_ids_lem rules.pdrs).1 a.pdr_ids,
  (unique_ids_lem rules.fars).1 a.far_ids,
  (unique_ids_lem rules.qers).1 a.qer_ids,
  (unique_ids_lem rules.urrs).1 a.urr_ids,
  (validate_pdrs-All rules rules.pdrs).1 (a.pdrs, a.disjoint),
)

-- Validation succeeds for exactly the rule sets of that description.
pub validate_rule_set-IsAccepted :
    (rules : RuleSet) (limits : CapacityLimits)
    → (validate_rule_set rules limits ≡ success tt) ↔ IsAccepted rules limits
validate_rule_set-IsAccepted rules limits =
    (success-IsAccepted rules limits, success_of_accepted rules limits)
