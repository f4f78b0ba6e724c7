-- ===== src/RuleService/Versions.antt =====
-- What convergence and markApplied (src/application/rule_service.cpp) make of the versions.
use upfpolicyengine.Common.{
  ℕ, ◌≡◌, ◌≢◌, refl, ◌↔◌, ◌⊎◌, inl, inr, some, arith, nat_eq, ◌&&◌, ◌==◌, Option-cases, Bool-cases,
}
use upfpolicyengine.Common.Text.{Text, text_Eq, text_eq_iff}
use upfpolicyengine.Types.{converged}
use upfpolicyengine.Rules.{RuleSet}
use upfpolicyengine.RuleService.{RuleService, convergence, mark_applied}

-- A report for the intended version under the latest update makes the service converged.
pub mark_applied-converged :
    (s : RuleService) (intended : RuleSet)
    → s.intended ≡ some intended
    → convergence (mark_applied s s.latest_update_id intended.version) ≡ converged
unfolding convergence mark_applied
mark_applied-converged s intended e =
    ground (arith, (text_eq_iff s.latest_update_id s.latest_update_id).1 refl)

-- A report for another update, or for another version than the intended one, changes nothing.
pub mark_applied-Stale :
    (s : RuleService) (update_id : Text) (version : ℕ)
    → ((update_id ≢ s.latest_update_id)
        ⊎ ((r : RuleSet) → s.intended ≡ some r → version ≢ r.version))
    → mark_applied s update_id version ≡ s
unfolding mark_applied
mark_applied-Stale s update_id version h = elim (Option-cases s.intended) [
  | inl e ↦ ground (arith, e)
  | inr (r, e) ↦ elim (Bool-cases (update_id == s.latest_update_id && nat_eq version r.version)) [
    | inl fits ↦ absurd (elim h [
      | inl other ↦ other ((text_eq_iff update_id s.latest_update_id).0 (ground arith))
      | inr f ↦ f r e (ground arith)
    ])
    | inr stale ↦ ground (arith, e)
  ]
]

-- The service is converged exactly when the version that was applied is the intended one.
pub convergence-converged_iff :
    (s : RuleService)
    → (convergence s ≡ converged)
      ↔ ((r : RuleSet) × (s.intended ≡ some r) × (s.applied_version ≡ r.version))
unfolding convergence
convergence-converged_iff s = elim (Option-cases s.intended) [
  | inl e ↦ (λ c. absurd (ground (arith, e)), λ (r, same, v). absurd (ground (arith, e)))
  | inr (r, e) ↦ (λ c. (r, e, ground (arith, e)), λ (r', same, v). ground (arith, e))
]
