-- ===== src/Migration/Coverage.antt =====
-- After a migration each rule of an accepted set has its state, and states and generations agree.
use upfpolicyengine.Common.{
  ◌≡◌, ◌≢◌, refl, sym, ap, ◌∙◌, true, Option, none, some, List, [], ◌∷◌, has_value, All, AllPairs,
  All-map, WhenSome,
}
use upfpolicyengine.Common.Dict.{SameKeys, lookup}
use upfpolicyengine.Rules.{RuleSet, Qer_HasId, Urr_HasId}
use upfpolicyengine.RuntimeState.{RuntimeState}
use upfpolicyengine.Validation.Identifiers.{HasUniqueIds}
use upfpolicyengine.Migration.{
  Slots, RuleKind, no_slots, update_rules, qer_kind, urr_kind, qer_slots, urr_slots, update_runtime,
}
use upfpolicyengine.Migration.Agreement.{IsConsistent, IsConsistentRuntime}
use upfpolicyengine.Migration.Carried.{
  IsDistinct, Holds, update_rules-Holds, update_rules-IsConsistent,
}

-- Every rule of the snapshot has its state.
abbrev pub Covers : RuleSet → RuntimeState → Type 0
Covers rules runtime =
    All (λ qer. has_value (lookup qer.id.value runtime.qers) ≡ true) rules.qers
    × All (λ urr. has_value (lookup urr.id.value runtime.urrs) ≡ true) rules.urrs

module _ {ℓ κ} {R : Type ℓ} {V : Type κ} (kind : RuleKind R V) where
  IsDistinct-pairs :
      (rules : List R) → AllPairs (λ r r'. kind.key r ≢ kind.key r') rules → IsDistinct kind rules
  IsDistinct-pairs [] h = tt
  IsDistinct-pairs (rule ∷ rules) h =
      (All-map _ _ rules (λ r differ. λ e. differ (sym e)) h.0, IsDistinct-pairs rules h.1)

  update_rules_covers :
      (old : Slots V) (rules : List R)
      → IsConsistent old
      → AllPairs (λ r r'. kind.key r ≢ kind.key r') rules
      → All
          (λ r.
            has_value (lookup (kind.key r) (update_rules kind rules old no_slots).states) ≡ true)
          rules
  update_rules_covers old rules c h =
      All-map (Holds kind old c (update_rules kind rules old no_slots)) _ rules
        (λ r held. ap has_value held.0)
        (update_rules-Holds kind old c rules no_slots (IsDistinct-pairs rules h))

-- The migrated runtime covers the rules and is consistent again.
pub update_runtime-Covers :
    (rules : RuleSet) (runtime : RuntimeState)
    → IsConsistentRuntime runtime
    → HasUniqueIds rules.qers
    → HasUniqueIds rules.urrs
    → Covers rules (update_runtime rules runtime)
      × IsConsistentRuntime (update_runtime rules runtime)
unfolding update_runtime lookup
update_runtime-Covers rules runtime c q u = (
  (
    update_rules_covers qer_kind (qer_slots runtime) rules.qers c.qers q.1,
    update_rules_covers urr_kind (urr_slots runtime) rules.urrs c.urrs u.1,
  ),
  record {
    qers =
        update_rules-IsConsistent qer_kind (qer_slots runtime) c.qers rules.qers no_slots
          (λ k. refl);
    urrs =
        update_rules-IsConsistent urr_kind (urr_slots runtime) c.urrs rules.urrs no_slots
          (λ k. refl);
  },
)

-- A change of the states that keeps their keys keeps what they cover.
pub covered_still :
    (o : Option RuleSet) (r r' : RuntimeState)
    → SameKeys r.qers r'.qers
    → SameKeys r.urrs r'.urrs
    → WhenSome o (λ rules. Covers rules r)
    → WhenSome o (λ rules. Covers rules r')
covered_still none r r' qers urrs h = tt
covered_still (some rules) r r' qers urrs h = (
  All-map _ _ rules.qers (λ q held. qers q.id.value ∙ held) h.0,
  All-map _ _ rules.urrs (λ u held. urrs u.id.value ∙ held) h.1,
)
