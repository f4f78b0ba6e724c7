-- ===== src/Reconciliation/Simulated.antt =====
-- Reconciliation (src/application/reconciliation.cpp) with the simulated data plane
-- (src/adapters/simulated_dataplane.cpp) behind it: transient failures are retried until one
-- attempt succeeds.
use upfpolicyengine.Common.{
  ℕ, zero, suc, ◌+◌, ◌%◌, ◌<◌, ◌≡◌, refl, sym, ap, subst, true, false, Option, none, some, List,
  ◌∷◌, arith, leb,
}
use upfpolicyengine.Common.Text.{Text, text_eq_iff}
use upfpolicyengine.Types.{immediate_success, transient_failure, u32_mod, converged}
use upfpolicyengine.Rules.{RuleSet}
use upfpolicyengine.RuleService.{RuleService, convergence}
use upfpolicyengine.RuleService.Versions.{mark_applied-converged}
use upfpolicyengine.Dataplane.{
  SimulatedDataplane, AdapterResult, plain_result, has, insert, key, record_outcome, apply,
  simulated,
}
use upfpolicyengine.Dataplane.Identity.{has-insert}
use upfpolicyengine.Reconciliation.{ReconciliationStatus, default_status, attempt_loop, reconcile}

-- So many transient failures, then a success.
abbrev pub failing : ℕ → List AdapterResult → List AdapterResult
failing zero later = plain_result immediate_success ∷ later
failing (suc k) later = plain_result transient_failure ∷ failing k later

-- An attempt that fails, and one that succeeds, for an update that is not applied.
failed_attempt :
    (u : Text) (v attempt : ℕ) (outcomes : List AdapterResult) (applied delayed : List Text)
    → has (key u v) applied ≡ false
    → apply
        (record {
          outcomes = plain_result transient_failure ∷ outcomes;
          applied = applied;
          delayed = delayed;
        })
        u
        v
        attempt
      ≡ (
        record { outcomes = outcomes; applied = applied; delayed = delayed },
        plain_result transient_failure,
      )
unfolding apply record_outcome
failed_attempt u v attempt outcomes applied delayed new = rw (apply, new)

good_attempt :
    (u : Text) (v attempt : ℕ) (outcomes : List AdapterResult) (applied delayed : List Text)
    → has (key u v) applied ≡ false
    → apply
        (record {
          outcomes = plain_result immediate_success ∷ outcomes;
          applied = applied;
          delayed = delayed;
        })
        u
        v
        attempt
      ≡ (
        record { outcomes = outcomes; applied = insert (key u v) applied; delayed = delayed },
        plain_result immediate_success,
      )
unfolding apply record_outcome
good_attempt u v attempt outcomes applied delayed new = rw (apply, new)

module _ (s : RuleService) (intended : RuleSet) (held : s.intended ≡ some intended) (maximum : ℕ)
    (room : maximum + 1 < u32_mod) where
  -- The run converged, after so many attempts, and the update is applied.
  abbrev pub Succeeds :
      ℕ → Option (RuleService × SimulatedDataplane × ReconciliationStatus) → Type 0
  Succeeds attempts none = ⊥
  Succeeds attempts (some (s', d', status)) =
      (status.converged ≡ true)
      × (status.attempts ≡ attempts)
      × (convergence s' ≡ converged)
      × (has (key s.latest_update_id intended.version) d'.applied ≡ true)

  loop-Succeeds :
      (k fuel : ℕ) (later : List AdapterResult) (applied delayed : List Text)
      (status : ReconciliationStatus)
      → has (key s.latest_update_id intended.version) applied ≡ false
      → status.attempts + k < maximum
      → k < fuel
      → Succeeds (status.attempts + k + 1) (
          attempt_loop simulated fuel s
            (record { outcomes = failing k later; applied = applied; delayed = delayed })
            intended.version
            maximum
            (status.attempts + 1)
            status)
  unfolding attempt_loop
  loop-Succeeds k zero later applied delayed status new allowed enough = absurd (omega arith)
  loop-Succeeds zero (suc fuel) later applied delayed status new allowed enough =
      let u = s.latest_update_id in
      let v = intended.version in
      let more : leb (status.attempts + 1) maximum ≡ true = ground arith in
      let good = good_attempt u v (status.attempts + 1) later applied delayed new in
      rw (attempt_loop, more, good)
        (
          refl,
          ground arith,
          mark_applied-converged s intended held,
          ground (
            arith,
            ap (λ r. has (key u v) r.0.applied) good,
            has-insert (key u v) (key u v) applied,
            (text_eq_iff (key u v) (key u v)).1 refl,
          ),
        )
  loop-Succeeds (suc k) (suc fuel) later applied delayed status new allowed enough =
      let u = s.latest_update_id in
      let v = intended.version in
      let more : leb (status.attempts + 1) maximum ≡ true = ground arith in
      let made : (status.attempts + 1) % u32_mod ≡ status.attempts + 1 = omega arith in
      let next : (status.attempts + 1 + 1) % u32_mod ≡ status.attempts + 1 + 1 = omega arith in
      let count : status.attempts + suc k + 1 ≡ status.attempts + 1 + k + 1 = omega arith in
      let rest =
        loop-Succeeds k fuel later applied delayed
          (record status { attempts = status.attempts + 1 }) new (omega arith) (omega arith) in
      let d : SimulatedDataplane = record {
        outcomes = failing (suc k) later;
        applied = applied;
        delayed = delayed;
      } in
      let failed = failed_attempt u v (status.attempts + 1) (failing k later) applied delayed new in
      let after : (simulated.apply d u v (status.attempts + 1)).0
          ≡ record { outcomes = failing k later; applied = applied; delayed = delayed } =
        ap (λ r. r.0) failed in
      rw (attempt_loop, more, failed, made, next, count, after) rest

  -- With fewer transient failures ahead than the limit allows attempts, and then a success, for an
  -- update that is not applied yet: the run converges in one attempt more than there are failures,
  -- the rule service has converged, and the update is applied.
  pub reconcile-Succeeds :
      (k : ℕ) (later : List AdapterResult) (applied delayed : List Text)
      → has (key s.latest_update_id intended.version) applied ≡ false
      → k < maximum
      → Succeeds (k + 1) (
          reconcile simulated
            (maximum + 1)
            s
            (record { outcomes = failing k later; applied = applied; delayed = delayed })
            maximum)
  unfolding reconcile
  reconcile-Succeeds k later applied delayed new allowed =
      let d : SimulatedDataplane = record {
        outcomes = failing k later;
        applied = applied;
        delayed = delayed;
      } in
      let looped : reconcile simulated (maximum + 1) s d maximum
          ≡ attempt_loop simulated (maximum + 1) s d intended.version maximum 1 default_status =
        ground (arith, held) in
      let count : 0 + k + 1 ≡ k + 1 = omega arith in
      let run =
        loop-Succeeds k (maximum + 1) later applied delayed default_status new (omega arith)
          (omega arith) in
      subst (Succeeds (k + 1)) (sym looped) (
        subst
          (λ n.
            Succeeds n
              (attempt_loop simulated (maximum + 1) s d intended.version maximum 1 default_status))
          count run)
