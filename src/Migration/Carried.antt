-- ===== src/Migration/Carried.antt =====
-- What a migration leaves for each rule of the new set.
use upfpolicyengine.Common.{
  ℕ, Bool, ◌≡◌, ◌≢◌, refl, sym, subst, ◌∙◌, some, List, [], ◌∷◌, arith, nat_eq, present_and,
  if◌then◌else◌, All,
}
use upfpolicyengine.Common.Dict.{lookup, index, lookup-insert, lookup-insert_self, lookup-insert_ne}
use upfpolicyengine.Migration.{Slots, RuleKind, store, update_rules}
use upfpolicyengine.Migration.Agreement.{IsConsistent, carry_lem, kept-present}

module _ {ℓ κ} {R : Type ℓ} {V : Type κ} (kind : RuleKind R V) where
  -- No rule of the list has the key.
  abbrev pub Avoids : ℕ → List R → Type 0
  Avoids k rules = All (λ r. kind.key r ≢ k) rules

  abbrev pub IsDistinct : List R → Type 0
  IsDistinct [] = Unit
  IsDistinct (rule ∷ rules) = Avoids (kind.key rule) rules × IsDistinct rules

  -- Whether the old maps hold the rule at its generation, and the state that it goes on with.
  abbrev pub is_kept : Slots V → R → Bool
  is_kept old rule =
      present_and (lookup (kind.key rule) old.generations) (λ g. nat_eq g (kind.generation rule))

  abbrev pub carried : Slots V → R → V
  carried old rule =
      if is_kept old rule
      then (index (kind.key rule) kind.initial old.states).0
      else kind.fresh rule

  store-IsConsistent :
      (rule : R) (state : V) (s : Slots V) → IsConsistent s → IsConsistent (store kind rule state s)
  store-IsConsistent rule state s c k = ground (
    arith,
    c k,
    lookup-insert (kind.key rule) k state s.states,
    lookup-insert (kind.key rule) k (kind.generation rule) s.generations,
  )

  -- One round of the loop, on consistent old maps.
  update_step :
      (rule : R) (rules : List R) (old migrated : Slots V)
      → IsConsistent old
      → update_rules kind (rule ∷ rules) old migrated
        ≡ update_rules kind rules old (store kind rule (carried old rule) migrated)
  unfolding update_rules
  update_step rule rules old migrated c =
      rw (carry_lem kind (is_kept old rule) rule old migrated (kept-present kind rule old c))

  module _ (old : Slots V) (c : IsConsistent old) where
    pub update_rules-IsConsistent :
        (rules : List R) (migrated : Slots V)
        → IsConsistent migrated
        → IsConsistent (update_rules kind rules old migrated)
    unfolding update_rules
    update_rules-IsConsistent [] migrated h = h
    update_rules-IsConsistent (rule ∷ rules) migrated h =
        rw (update_step rule rules old migrated c) (
          update_rules-IsConsistent rules _ (store-IsConsistent rule (carried old rule) migrated h))

    -- A key that no rule has keeps its entries.
    abbrev Same : ℕ → Slots V → Slots V → Type κ
    Same k s t =
        (lookup k s.states ≡ lookup k t.states) × (lookup k s.generations ≡ lookup k t.generations)

    update_rules_untouched :
        (k : ℕ) (rules : List R) (migrated : Slots V)
        → Avoids k rules
        → Same k (update_rules kind rules old migrated) migrated
    unfolding update_rules
    update_rules_untouched k [] migrated h = (refl, refl)
    update_rules_untouched k (rule ∷ rules) migrated h =
        let rest =
          update_rules_untouched k rules (store kind rule (carried old rule) migrated) h.1 in
        rw (update_step rule rules old migrated c) (
          rest.0 ∙ lookup-insert_ne (kind.key rule) k (carried old rule) migrated.states h.0,
          rest.1
              ∙ lookup-insert_ne (kind.key rule) k (kind.generation rule) migrated.generations h.0,
        )

    -- What the loop stores for a rule.
    abbrev pub Holds : Slots V → R → Type κ
    Holds s rule =
        (lookup (kind.key rule) s.states ≡ some (carried old rule))
        × (lookup (kind.key rule) s.generations ≡ some (kind.generation rule))

    -- From consistent old maps, and for rules with distinct keys, the loop ends with each rule at its
    -- generation: with its old state if that generation was recorded for it, else with a fresh one.
    pub update_rules-Holds :
        (rules : List R) (migrated : Slots V)
        → IsDistinct rules
        → All (Holds (update_rules kind rules old migrated)) rules
    unfolding update_rules
    update_rules-Holds [] migrated h = tt
    update_rules-Holds (rule ∷ rules) migrated h =
        let stored = store kind rule (carried old rule) migrated in
        let later = update_rules_untouched (kind.key rule) rules stored h.0 in
        subst (λ s. All (Holds s) (rule ∷ rules)) (sym (update_step rule rules old migrated c))
          (
            (
              later.0 ∙ lookup-insert_self (kind.key rule) (carried old rule) migrated.states,
              later.1
                  ∙ lookup-insert_self (kind.key rule) (kind.generation rule) migrated.generations,
            ),
            update_rules-Holds rules stored h.1,
          )
