-- ===== src/Dataplane/Delayed.antt =====
-- Delayed completions of the simulated data plane (src/adapters/simulated_dataplane.cpp): a stale
-- one never takes effect.
use upfpolicyengine.Common.{
  ◌&&◌, ◌||◌, nat_eq, ap, sym, ◌∙◌, ℕ, ◌≡◌, ◌↔◌, ◌⊎◌, inl, inr, true, arith, Bool-cases,
}
use upfpolicyengine.Common.Text.{Text, text_Eq, text_eq, text_eq_iff}
use upfpolicyengine.Dataplane.{SimulatedDataplane, has, key, complete_delayed}
use upfpolicyengine.Dataplane.Identity.{key_injective, has-insert}

-- A completion succeeds exactly when the update is applied already, or is the latest and waits.
pub complete_delayed_iff :
    (d : SimulatedDataplane) (u : Text) (v : ℕ) (latest : Text) (version : ℕ)
    → ((complete_delayed d u v latest version).1 ≡ true) ↔ (
        (has (key u v) d.applied ≡ true)
        ⊎ ((u ≡ latest) × (v ≡ version) × (has (key u v) d.delayed ≡ true)))
unfolding complete_delayed
complete_delayed_iff d u v latest version = (
  λ h. elim (Bool-cases (has (key u v) d.applied)) [
    | inl held ↦ inl held
    | inr waits ↦ inr ((text_eq_iff u latest).0 (ground arith), ground arith, ground arith)
  ],
  λ h. elim h [
    | inl held ↦ ground arith
    | inr (same, number, waits) ↦ ground (arith, (text_eq_iff u latest).1 same)
  ],
)

text_eq-key :
    (u u' : Text) (v v' : ℕ) → text_eq (key u v) (key u' v') ≡ (text_eq u u' && nat_eq v v')
text_eq-key u u' v v' = elim (Bool-cases (text_eq (key u v) (key u' v'))) [
  | inl same ↦
      let (us, vs) = key_injective u u' v v' ((text_eq_iff (key u v) (key u' v')).0 same) in
      ground (arith, same, (text_eq_iff u u').1 us, vs)
  | inr differs ↦ elim (Bool-cases (text_eq u u' && nat_eq v v')) [
    | inr apart ↦ differs ∙ sym apart
    | inl fits ↦
        let us : u ≡ u' = (text_eq_iff u u').0 (ground arith) in
        let vs : v ≡ v' = ground arith in
        absurd (
          ground (
            arith,
            differs,
            (text_eq_iff (key u v) (key u' v')).1 (ap (λ x. key x v) us ∙ ap (key u') vs),
          ))
  ]
]

-- After a completion an update is applied exactly if it was before, or if the completion is
-- successful and for that update, by its name and its version.
pub complete_delayed-Applied :
    (d : SimulatedDataplane) (u u' : Text) (v v' : ℕ) (latest : Text) (version : ℕ)
    → has (key u' v') (complete_delayed d u v latest version).0.applied ≡ (
        has (key u' v') d.applied
        || (complete_delayed d u v latest version).1 && (text_eq u u' && nat_eq v v'))
unfolding complete_delayed
complete_delayed-Applied d u u' v v' latest version =
    elim (Bool-cases (text_eq (key u v) (key u' v'))) [
      | inl same ↦
          let keys = (text_eq_iff (key u v) (key u' v')).0 same in
          ground (
            arith,
            ap (λ k. has k d.applied) keys,
            has-insert (key u' v') (key u v) d.applied,
            text_eq-key u u' v v',
            same,
          )
      | inr differs ↦
          ground (arith, has-insert (key u' v') (key u v) d.applied, text_eq-key u u' v v', differs)
    ]
