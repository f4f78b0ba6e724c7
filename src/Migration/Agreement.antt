-- ===== src/Migration/Agreement.antt =====
-- The two migrations, of PacketPipeline::install and of RuleService::update, differ in their test.
-- On a runtime state that has a generation exactly where it has a state they agree.
use upfpolicyengine.Common.{
  ℕ, Bool, true, false, ◌&&◌, ◌≡◌, refl, ◌⊎◌, inl, inr, none, some, List, [], ◌∷◌, arith, nat_eq,
  has_value, present_and, Option-cases, if◌then◌else◌,
}
use upfpolicyengine.Common.Dict.{Dict, lookup, index, contains, lookup-insert}
use upfpolicyengine.Rules.{RuleSet}
use upfpolicyengine.RuntimeState.{RuntimeState}
use upfpolicyengine.Migration.{
  Slots, RuleKind, no_slots, store, carry, install_rules, update_rules, qer_kind, urr_kind,
  qer_slots, urr_slots, install_runtime, update_runtime,
}

-- What the pipeline's readings by `[]` can have added: a generation 0 where there was none.
abbrev Sees : Dict ℕ → Dict ℕ → ℕ → Type 0
Sees gi gu k = (lookup k gi ≡ lookup k gu) ⊎ ((lookup k gi ≡ some 0) × (lookup k gu ≡ none))

-- The reading of a generation leaves what is seen.
index-Sees : (k j : ℕ) (gi gu : Dict ℕ) → Sees gi gu k → Sees gi gu j → Sees (index k 0 gi).1 gu j
unfolding index
index-Sees k j gi gu hk hj = elim (Option-cases (lookup k gi)) [
  | inr (g, e) ↦ rw (e, index) hj
  | inl e ↦ rw (e, index) (ground (arith, lookup-insert k j 0 gi))
]

module _ {ℓ} {V : Type ℓ} where
  -- A generation is recorded exactly where a state is.
  abbrev pub IsConsistent : Slots V → Type 0
  IsConsistent s = (k : ℕ) → has_value (lookup k s.generations) ≡ has_value (lookup k s.states)

  -- The two tests give one answer.
  keep_agrees :
      (k generation : ℕ) (gi gu : Dict ℕ) (states : Dict V)
      → Sees gi gu k
      → has_value (lookup k gu) ≡ has_value (lookup k states)
      → (nat_eq (index k 0 gi).0 generation && contains k states)
        ≡ present_and (lookup k gu) (λ g. nat_eq g generation)
  unfolding index
  keep_agrees k generation gi gu states h c = ground arith

module _ {ℓ κ} {R : Type ℓ} {V : Type κ} (kind : RuleKind R V) where
  -- A state that is there is carried over without a change of the old maps.
  pub carry_lem :
      (keep : Bool) (rule : R) (old migrated : Slots V)
      → (keep ≡ true → has_value (lookup (kind.key rule) old.states) ≡ true)
      → carry kind keep rule old migrated ≡ (
        old,
        store kind rule
            (if keep then (index (kind.key rule) kind.initial old.states).0 else kind.fresh rule)
            migrated,
      )
  unfolding carry index
  carry_lem true rule old migrated h = elim (Option-cases (lookup (kind.key rule) old.states)) [
    | inl e ↦ absurd (ground (arith, h refl))
    | inr (v, e) ↦ rw (e, carry, index)
  ]
  carry_lem false rule old migrated h = refl

  pub kept-present :
      (rule : R) (old : Slots V)
      → IsConsistent old
      → present_and (lookup (kind.key rule) old.generations) (λ g. nat_eq g (kind.generation rule))
        ≡ true
      → has_value (lookup (kind.key rule) old.states) ≡ true
  kept-present rule old c h = ground (arith, c (kind.key rule))

  -- The two loops build the same maps, from generations that differ by such readings only.
  loops_agree :
      (rules : List R) (generations : Dict ℕ) (old migrated : Slots V)
      → IsConsistent old
      → ((k : ℕ) → Sees generations old.generations k)
      → install_rules kind rules (record old { generations = generations }) migrated
        ≡ update_rules kind rules old migrated
  unfolding install_rules update_rules
  loops_agree [] generations old migrated c sees = refl
  loops_agree (rule ∷ rules) generations old migrated c sees =
      let key = kind.key rule in
      let read = (index key 0 generations).1 in
      let keep = present_and (lookup key old.generations) (λ g. nat_eq g (kind.generation rule)) in
      let present = kept-present rule old c in
      rw
        (
          keep_agrees key (kind.generation rule) generations old.generations old.states (sees key)
              (c key),
          carry_lem keep rule (record old { generations = read }) migrated present,
          carry_lem keep rule old migrated present,
        )
        (loops_agree rules read old _ c
          (λ j. index-Sees key j generations old.generations (sees key) (sees j)))

-- A runtime state that is consistent for QERs and for URRs.
pub record IsConsistentRuntime (runtime : RuntimeState) : Type 0 where
  pub qers : IsConsistent (qer_slots runtime)
  pub urrs : IsConsistent (urr_slots runtime)

-- On a consistent runtime state the pipeline and the rule service migrate alike.
pub install_runtime-eq-update_runtime :
    (rules : RuleSet) (runtime : RuntimeState)
    → IsConsistentRuntime runtime
    → install_runtime rules runtime ≡ update_runtime rules runtime
unfolding install_runtime update_runtime
install_runtime-eq-update_runtime rules runtime c = rw (
  loops_agree qer_kind rules.qers _ (qer_slots runtime) no_slots c.qers (λ k. inl refl),
  loops_agree urr_kind rules.urrs _ (urr_slots runtime) no_slots c.urrs (λ k. inl refl),
)
