-- ===== src/Reconciliation/Attempts.antt =====
-- The loop of ReconciliationController::reconcile (src/application/reconciliation.cpp): it ends, it
-- makes no more attempts than it may, and what it reports is what it has done.
use upfpolicyengine.Common.{
  ℕ, zero, suc, ◌+◌, ◌-◌, ◌≤◌, ◌<◌, ◌≡◌, refl, sym, subst, ◌⊎◌, inl, inr, true, false, Option, none,
  some, arith, leb, nat_eq, Option-cases, Bool-cases,
}
use upfpolicyengine.Common.Text.{Text}
use upfpolicyengine.Types.{
  AdapterOutcome, immediate_success, delayed_success, transient_failure, permanent_failure, u32_mod,
  converged,
}
use upfpolicyengine.Dataplane.{DataplaneAdapter}
use upfpolicyengine.RuleService.{RuleService, convergence}
use upfpolicyengine.RuleService.Versions.{mark_applied-converged}
use upfpolicyengine.Rules.{RuleSet}
use upfpolicyengine.Reconciliation.{ReconciliationStatus, default_status, attempt_loop, reconcile}

Outcome-cases :
    (o : AdapterOutcome)
    → (o ≡ immediate_success)
      ⊎ ((o ≡ delayed_success) ⊎ ((o ≡ permanent_failure) ⊎ (o ≡ transient_failure)))
Outcome-cases o = ground arith

module _ (adapter : DataplaneAdapter) where
  open adapter use {State, apply}

  -- What a run comes to: it stays within the attempts, and it is converged with the rule service, or
  -- it is not and has left the rule service as it was.
  abbrev pub IsFaithful : RuleService → ℕ → RuleService → ReconciliationStatus → Type 0
  IsFaithful s maximum s' status =
      (status.attempts ≤ maximum)
      × (((status.converged ≡ true) × (convergence s' ≡ converged))
          ⊎ ((status.converged ≡ false) × (s' ≡ s)))

  abbrev pub Ends : RuleService → ℕ → Option (RuleService × State × ReconciliationStatus) → Type 0
  Ends s maximum none = ⊥
  Ends s maximum (some (s', d', status)) = IsFaithful s maximum s' status

  module _ (s : RuleService) (intended : RuleSet) (held : s.intended ≡ some intended) (maximum : ℕ)
      (room : maximum + 1 < u32_mod) where
    -- From an attempt that is one more than those made, with fuel for those that are left.
    loop-Ends :
        (fuel : ℕ) (d : State) (attempt : ℕ) (status : ReconciliationStatus)
        → attempt ≡ status.attempts + 1
        → status.attempts ≤ maximum
        → maximum < fuel + status.attempts
        → status.converged ≡ false
        → Ends s maximum (attempt_loop adapter fuel s d intended.version maximum attempt status)
    unfolding attempt_loop
    loop-Ends zero d attempt status e le enough c = absurd (omega arith)
    loop-Ends (suc fuel) d attempt status e le enough c = elim (Bool-cases (leb attempt maximum)) [
      | inr over ↦ rw (over, attempt_loop) (le, inr (c, refl))
      | inl more ↦
          elim (Outcome-cases (apply d s.latest_update_id intended.version attempt).1.outcome) [
            | inl success ↦
                rw (more, attempt_loop, success)
                  (ground arith, inl (refl, mark_applied-converged s intended held))
            | inr (inl later) ↦ rw (more, attempt_loop, later) (ground arith, inr (c, refl))
            | inr (inr (inl refused)) ↦
                rw (more, attempt_loop, refused) (ground arith, inr (c, refl))
            | inr (inr (inr again)) ↦
                rw (more, attempt_loop, again)
                  (loop-Ends fuel _ _ _ (ground arith) (ground arith) (ground arith) c)
          ]
    ]

  -- A run of `reconcile` whose limit leaves room in 32 bits ends, with fuel for one round more than
  -- the limit. It has made at most so many attempts; if it reports convergence then the rule
  -- service has converged, and if it does not then the rule service is as it was.
  pub reconcile-Ends :
      (s : RuleService) (d : State) (maximum : ℕ)
      → maximum + 1 < u32_mod
      → Ends s maximum (reconcile adapter (maximum + 1) s d maximum)
  unfolding reconcile
  reconcile-Ends s d maximum room = elim (Option-cases s.intended) [
    | inl e ↦
        let idle : reconcile adapter (maximum + 1) s d maximum ≡ some (s, d, default_status) =
          ground (arith, e) in
        subst (Ends s maximum) (sym idle) (omega arith, inr (refl, refl))
    | inr (intended, e) ↦ elim (Bool-cases (nat_eq maximum 0)) [
      | inl none_allowed ↦
          let idle : reconcile adapter (maximum + 1) s d maximum ≡ some (s, d, default_status) =
            ground (arith, e) in
          subst (Ends s maximum) (sym idle) (omega arith, inr (refl, refl))
      | inr allowed ↦
          let looped : reconcile adapter (maximum + 1) s d maximum
              ≡ attempt_loop adapter (maximum + 1) s d intended.version maximum 1 default_status =
            ground (arith, e) in
          subst (Ends s maximum) (sym looped) (
            loop-Ends s intended e maximum room (maximum + 1) d 1 default_status refl (omega arith)
              (omega arith) refl)
    ]
  ]

  -- With the largest limit of 32 bits, and an adapter that always fails transiently, no fuel is
  -- enough: the attempt counter wraps around before it passes the limit.
  pub attempt_loop_wraps :
      (s : RuleService) (version : ℕ)
      → ((d : State) (update_id : Text) (v attempt : ℕ)
          → (apply d update_id v attempt).1.outcome ≡ transient_failure)
      → (fuel : ℕ) (d : State) (attempt : ℕ) (status : ReconciliationStatus) → attempt < u32_mod
      → attempt_loop adapter fuel s d version (u32_mod - 1) attempt status ≡ none
  unfolding attempt_loop
  attempt_loop_wraps s version fails zero d attempt status h = refl
  attempt_loop_wraps s version fails (suc fuel) d attempt status h =
      let more : leb attempt (u32_mod - 1) ≡ true = ground arith in
      rw (more, attempt_loop, fails d s.latest_update_id version attempt)
        (attempt_loop_wraps s version fails fuel _ _ _ (omega arith))
