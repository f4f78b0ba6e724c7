-- ===== src/RuleService/Updates.antt =====
-- RuleService::update and ::remove (src/application/rule_service.cpp): what they accept, and the
-- states of the service that they lead to.
use upfpolicyengine.Common.{
  ℕ, ◌<◌, ◌≡◌, refl, ◌↔◌, ◌⊎◌, inl, inr, false, Option, none, some, arith, leb, present_and,
  WhenSome, Bool-cases,
}
use upfpolicyengine.Common.Text.{Text, text, text_Eq, is_empty}
use upfpolicyengine.Types.{Result, success, failure}
use upfpolicyengine.Rules.{RuleSet}
use upfpolicyengine.Validation.{validate_rule_set}
use upfpolicyengine.Validation.Accepts.{IsAccepted, validate_rule_set-IsAccepted}
use upfpolicyengine.Migration.{update_runtime}
use upfpolicyengine.RuleService.{RuleService, update}

-- What an update needs: a name, a version above the active one, and an acceptable rule set.
pub record IsAdmissible (s : RuleService) (update_id : Text) (candidate : RuleSet) : Type 0 where
  pub named : is_empty update_id ≡ false
  pub newer : WhenSome s.active (λ active. active.version < candidate.version)
  pub accepted : IsAccepted candidate s.limits

-- The service that an update leads to.
abbrev pub updated : RuleService → Text → RuleSet → RuleService
updated s update_id candidate = record s {
  runtime = update_runtime candidate s.runtime;
  intended = some candidate;
  active = some candidate;
  latest_update_id = update_id;
}

-- All of an update, or nothing.
abbrev pub Updates : RuleService → Text → RuleSet → RuleService × Result (Unit {0}) → Type 0
Updates s update_id candidate r =
    (IsAdmissible s update_id candidate × (r ≡ (updated s update_id candidate, success tt)))
    ⊎ (¬ IsAdmissible s update_id candidate × ((e : Text) × (r ≡ (s, failure e))))

newer_of :
    (o : Option RuleSet) (n : ℕ)
    → present_and o (λ a. leb n a.version) ≡ false ↔ WhenSome o (λ a. a.version < n)
newer_of none n = (λ h. tt, λ h. refl)
newer_of (some a) n = (λ h. ground arith, λ h. ground arith)

update_by :
    (s : RuleService) (update_id : Text) (candidate : RuleSet) (r : Result (Unit {0}))
    → validate_rule_set candidate s.limits ≡ r
    → is_empty update_id ≡ false
    → present_and s.active (λ active. leb candidate.version active.version) ≡ false
    → Updates s update_id candidate (update s update_id candidate)
unfolding update
update_by s update_id candidate (success tt) e named newer = inl (
  record {
    named = named;
    newer = (newer_of s.active candidate.version).0 newer;
    accepted = (validate_rule_set-IsAccepted candidate s.limits).0 e;
  },
  rw (update, named, newer, e),
)
update_by s update_id candidate (failure x) e named newer = inr (
  (λ h. cc ((validate_rule_set-IsAccepted candidate s.limits).1 h.accepted)),
  (x, rw (update, named, newer, e)),
)

-- An update installs its rule set, the migrated runtime and its name when the name is not empty,
-- the version is above the active one and the rule set is acceptable; in every other case it fails
-- and changes nothing.
pub update-Updates :
    (s : RuleService) (update_id : Text) (candidate : RuleSet)
    → Updates s update_id candidate (update s update_id candidate)
unfolding update
update-Updates s update_id candidate = elim (Bool-cases (is_empty update_id)) [
  | inl unnamed ↦ inr ((λ h. cc (h.named)), (text "update ID required", rw (update, unnamed)))
  | inr named ↦
      elim (Bool-cases (present_and s.active (λ active. leb candidate.version active.version))) [
        | inl stale ↦ inr (
          (λ h. cc ((newer_of s.active candidate.version).1 h.newer)),
          (text "ruleset version must increase", rw (update, named, stale)),
        )
        | inr newer ↦ update_by s update_id candidate _ refl named newer
      ]
]
