-- ===== src/Dataplane/Identity.antt =====
-- The identity of an update in the simulated data plane (src/adapters/simulated_dataplane.cpp), and
-- what an application does for it.
use upfpolicyengine.Common.{ℕ, ◌≡◌, refl, inl, inr, ◌||◌, List, [], arith, ◌∙◌, Bool-cases, sym, ap}
use upfpolicyengine.Common.Text.{Text, text_Eq, text_eq, text_eq_iff}
use upfpolicyengine.Common.Decimal.{peel_decimal}
use upfpolicyengine.Types.{immediate_success}
use upfpolicyengine.Dataplane.{
  SimulatedDataplane, plain_result, has, insert, key, record_outcome, apply,
}

-- Two updates have one identity only when their names and their versions are the same, whatever
-- colons the names have.
pub key_injective : (u u' : Text) (v v' : ℕ) → key u v ≡ key u' v' → (u ≡ u') × (v ≡ v')
unfolding key
key_injective u u' v v' e = peel_decimal b':' [] u u' v v' (λ digit. ground arith) e

pub has-insert : (t u : Text) (ts : List Text) → has t (insert u ts) ≡ (text_eq u t || has t ts)
unfolding insert has
has-insert t u ts = elim (Bool-cases (has u ts)) [
  | inl held ↦ elim (Bool-cases (text_eq u t)) [
    | inl same ↦
        rw (held, insert, same) ((ap (λ x. has x ts) (sym ((text_eq_iff u t).0 same))) ∙ held)
    | inr differs ↦ rw (held, insert, differs) refl
  ]
  | inr new ↦ rw (new, insert) refl
]

-- An application that succeeds at once is final: a further one of the same update and version
-- succeeds and changes nothing, whatever the outcomes that are left.
pub apply-Idempotent :
    (d : SimulatedDataplane) (u : Text) (v attempt attempt' : ℕ)
    → (apply d u v attempt).1.outcome ≡ immediate_success
    → apply (apply d u v attempt).0 u v attempt'
      ≡ ((apply d u v attempt).0, plain_result immediate_success)
unfolding apply record_outcome
apply-Idempotent d u v attempt attempt' h =
    ground
      (arith, has-insert (key u v) (key u v) d.applied, (text_eq_iff (key u v) (key u v)).1 refl)
