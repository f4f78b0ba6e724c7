-- ===== src/RuleService.antt =====
-- include/upf/application/rule_service.hpp, src/application/rule_service.cpp: intended, active and
-- applied versions of the rule set.
pub mod Updates
pub mod Reachable
pub mod Versions
use upfpolicyengine.Common.{
  ℕ, Bool, true, false, not, ◌&&◌, ◌||◌, Option, none, some, ◌==◌, leb, nat_eq, if◌then◌else◌,
  has_value, present_and, absent_or,
}
use upfpolicyengine.Common.Text.{Text, text, text_Eq, is_empty}
use upfpolicyengine.Types.{
  CapacityLimits, Result, success, failure, ConvergenceStatus, empty, converged, divergent,
}
use upfpolicyengine.Rules.{RuleSet}
use upfpolicyengine.Validation.{validate_rule_set}
use upfpolicyengine.RuntimeState.{RuntimeState, default_runtime}
use upfpolicyengine.Migration.{update_runtime}

pub record RuleService : Type 0 where
  pub limits : CapacityLimits
  pub intended : Option RuleSet
  pub active : Option RuleSet
  pub applied_version : ℕ
  pub latest_update_id : Text
  pub runtime : RuntimeState

-- The constructor.
abbrev pub new_service : CapacityLimits → RuleService
new_service limits = record {
  limits = limits;
  intended = none;
  active = none;
  applied_version = 0;
  latest_update_id = text "";
  runtime = default_runtime;
}

-- `RuleService::update`
unfoldable pub update : RuleService → Text → RuleSet → RuleService × Result (Unit {0})
update s update_id candidate =
    if is_empty update_id
    then (s, failure (text "update ID required"))
    else if present_and s.active (λ active. leb candidate.version active.version)
    then (s, failure (text "ruleset version must increase"))
    else elim (validate_rule_set candidate s.limits) [
      | failure error ↦ (s, failure error)
      | success _ ↦ (
        record s {
          runtime = update_runtime candidate s.runtime;
          intended = some candidate;
          active = some candidate;
          latest_update_id = update_id;
        },
        success tt,
      )
    ]

-- `RuleService::remove`
unfoldable pub remove : RuleService → Text → ℕ → RuleService × Result (Unit {0})
remove s update_id version =
    if absent_or s.active (λ active. is_empty update_id || leb version active.version)
    then (s, failure (text "invalid delete"))
    else (record s { intended = none; active = none; latest_update_id = update_id }, success tt)

-- `RuleService::convergence`
unfoldable pub convergence : RuleService → ConvergenceStatus
convergence s =
    if not (has_value s.intended) && nat_eq s.applied_version 0
    then empty
    else if present_and s.intended (λ intended. nat_eq intended.version s.applied_version)
    then converged
    else divergent

-- `RuleService::markApplied`
unfoldable pub mark_applied : RuleService → Text → ℕ → RuleService
mark_applied s update_id version =
    if present_and s.intended
      (λ intended. update_id == s.latest_update_id && nat_eq version intended.version)
    then record s { applied_version = version }
    else s

-- A write through the reference that `RuleService::runtime` returns.
abbrev pub write_runtime : RuleService → RuntimeState → RuleService
write_runtime s written = record s { runtime = written }
