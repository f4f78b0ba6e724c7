-- ===== src/Rules/Lookup.antt =====
-- The lookups by identifier (src/domain/validation.cpp): a rule that is found has the identifier,
-- and has whatever all the rules have.
use upfpolicyengine.Common.{
  ◌≡◌, List, [], ◌∷◌, some, All, ◌==◌, Bool-cases, inl, inr, some_inj, subst,
}
use upfpolicyengine.Types.{RuleId, RuleId_Eq, id_eq_iff}
use upfpolicyengine.Rules.{HasId, find_rule}

module _ {ℓ κ} {A : Type ℓ} ⦃h : HasId A⦄ where
  pub find_rule-All :
      (P : A → Type κ) (id : RuleId) (rs : List A) {r : A}
      → All P rs
      → find_rule id rs ≡ some r
      → P r × (h.id_of r ≡ id)
  unfolding find_rule
  find_rule-All P id [] all e = cc
  find_rule-All P id (x ∷ rs) {r} all e = elim (Bool-cases (h.id_of x == id)) [
    | inl hit ↦
        let same = some_inj (rw hit at e) in
        (subst P same all.0, subst (λ y. h.id_of y ≡ id) same ((id_eq_iff (h.id_of x) id).0 hit))
    | inr miss ↦ find_rule-All P id rs all.1 (rw miss at e)
  ]
