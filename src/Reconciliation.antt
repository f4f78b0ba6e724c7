-- ===== src/Reconciliation.antt =====
-- include/upf/application/reconciliation.hpp, src/application/reconciliation.cpp: bringing the data
-- plane to the intended rule set, with a bounded number of attempts.
pub mod Attempts
pub mod Simulated
use upfpolicyengine.Common.{
  ℕ, zero, suc, ◌+◌, ◌%◌, Bool, true, false, ◌||◌, not, Option, none, some, leb, nat_eq,
  if◌then◌else◌,
}
use upfpolicyengine.Types.{
  immediate_success, delayed_success, transient_failure, permanent_failure, u32_mod,
}
use upfpolicyengine.Dataplane.{DataplaneAdapter}
use upfpolicyengine.RuleService.{RuleService, mark_applied}

pub record ReconciliationStatus : Type 0 where
  pub converged : Bool
  pub attempts : ℕ
  pub delayed : Bool

-- The default constructor.
abbrev pub default_status : ReconciliationStatus
default_status = record { converged = false; attempts = 0; delayed = false }

module _ (adapter : DataplaneAdapter) where
  open adapter use {State, apply}

  -- The loop, for the version of the snapshot that was taken before it. Both counters are 32 bits
  -- wide. `none` is: the fuel ran out.
  unfoldable pub attempt_loop :
      ℕ
      → RuleService
      → State
      → ℕ
      → ℕ
      → ℕ
      → ReconciliationStatus
      → Option (RuleService × State × ReconciliationStatus)
  attempt_loop zero s d version maximum attempt status = none
  attempt_loop (suc fuel) s d version maximum attempt status = elim (leb attempt maximum) [
    | false ↦ some (s, d, status)
    | true ↦
        let status' = record status { attempts = (status.attempts + 1) % u32_mod } in
        let (d', result) = apply d s.latest_update_id version attempt in
        elim result.outcome [
          | immediate_success ↦
              some
                (mark_applied s s.latest_update_id version, d', record status' { converged = true })
          | delayed_success ↦ some (s, d', record status' { delayed = true })
          | permanent_failure ↦ some (s, d', status')
          | transient_failure ↦
              attempt_loop fuel s d' version maximum ((attempt + 1) % u32_mod) status'
        ]
  ]

  -- `ReconciliationController::reconcile`, with fuel for the loop.
  unfoldable pub reconcile :
      ℕ → RuleService → State → ℕ → Option (RuleService × State × ReconciliationStatus)
  unfolding attempt_loop
  reconcile fuel s d maximum = elim s.intended [
    | none ↦ some (s, d, default_status)
    | some intended ↦
        if nat_eq maximum 0
        then some (s, d, default_status)
        else attempt_loop fuel s d intended.version maximum 1 default_status
  ]
