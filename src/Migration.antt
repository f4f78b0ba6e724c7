-- ===== src/Migration.antt =====
-- The loops of PacketPipeline::install and RuleService::update that carry the state of a rule over
-- to a new rule set while its generation is the same. Both treat QERs and URRs alike, so a kind of
-- rule is a record of what the loops ask of it.
pub mod Carried
pub mod Agreement
pub mod Coverage
use upfpolicyengine.Common.{
  ℕ, Bool, ◌&&◌, Option, List, [], ◌∷◌, nat_eq, if◌then◌else◌, present_and, false,
}
use upfpolicyengine.Common.Dict.{Dict, lookup, insert, index, contains}
use upfpolicyengine.Rules.{Qer, Urr, RuleSet}
use upfpolicyengine.RuntimeState.{
  TokenBucketState, UsageCounterState, RuntimeState, default_bucket, default_counter,
}

-- The two maps of a runtime state that belong to one kind of rule.
pub record Slots {ℓ} (V : Type ℓ) : Type ℓ where
  pub states : Dict V
  pub generations : Dict ℕ

abbrev pub no_slots {ℓ} : {V : Type ℓ} → Slots V
no_slots = record { states = []; generations = [] }

-- A rule's key and generation, its state when it is new, and the value-initialised state.
pub record RuleKind {ℓ κ} (R : Type ℓ) (V : Type κ) : Type (ℓ ⊔ κ) where
  pub key : R → ℕ
  pub generation : R → ℕ
  pub fresh : R → V
  pub initial : V

abbrev pub qer_kind : RuleKind Qer TokenBucketState
qer_kind = record {
  key = λ qer. qer.id.value;
  generation = λ qer. qer.generation;
  fresh = λ qer. record default_bucket { tokens_bytes = qer.burst_bytes };
  initial = default_bucket;
}

abbrev pub urr_kind : RuleKind Urr UsageCounterState
urr_kind = record {
  key = λ urr. urr.id.value;
  generation = λ urr. urr.generation;
  fresh = λ urr. default_counter;
  initial = default_counter;
}

abbrev pub qer_slots : RuntimeState → Slots TokenBucketState
qer_slots runtime = record { states = runtime.qers; generations = runtime.qer_generations }

abbrev pub urr_slots : RuntimeState → Slots UsageCounterState
urr_slots runtime = record { states = runtime.urrs; generations = runtime.urr_generations }

abbrev pub runtime_of : Slots TokenBucketState → Slots UsageCounterState → RuntimeState
runtime_of qers urrs = record {
  qers = qers.states;
  urrs = urrs.states;
  qer_generations = qers.generations;
  urr_generations = urrs.generations;
}

module _ {ℓ κ} {R : Type ℓ} {V : Type κ} (kind : RuleKind R V) where
  -- `migrated.states[key] = state; migrated.generations[key] = rule.generation;`
  abbrev pub store : R → V → Slots V → Slots V
  store rule state migrated = record {
    states = insert (kind.key rule) state migrated.states;
    generations = insert (kind.key rule) (kind.generation rule) migrated.generations;
  }

  -- The body of the loop, for the test that the caller makes: the old maps, in which a reading can
  -- insert an entry, and the migrated maps.
  unfoldable pub carry : Bool → R → Slots V → Slots V → Slots V × Slots V
  carry keep rule old migrated =
      if keep
      then (let (state, states) = index (kind.key rule) kind.initial old.states in
          (record old { states = states }, store rule state migrated))
      else (old, store rule (kind.fresh rule) migrated)

  -- The loop of PacketPipeline::install: its test reads the generation by `[]`.
  unfoldable pub install_rules : List R → Slots V → Slots V → Slots V
  unfolding carry
  install_rules [] old migrated = migrated
  install_rules (rule ∷ rules) old migrated =
      let (generation, generations) = index (kind.key rule) 0 old.generations in
      let keep = nat_eq generation (kind.generation rule) && contains (kind.key rule) old.states in
      let (old', migrated') = carry keep rule (record old { generations = generations }) migrated in
      install_rules rules old' migrated'

  -- The loop of RuleService::update: its test finds the generation.
  unfoldable pub update_rules : List R → Slots V → Slots V → Slots V
  unfolding carry
  update_rules [] old migrated = migrated
  update_rules (rule ∷ rules) old migrated =
      let keep =
        present_and (lookup (kind.key rule) old.generations)
          λ generation. nat_eq generation (kind.generation rule) in
      let (old', migrated') = carry keep rule old migrated in update_rules rules old' migrated'

-- `runtime_ = migrated` at the end of PacketPipeline::install.
unfoldable pub install_runtime : RuleSet → RuntimeState → RuntimeState
unfolding install_rules
install_runtime rules runtime =
    runtime_of (install_rules qer_kind rules.qers (qer_slots runtime) no_slots)
      (install_rules urr_kind rules.urrs (urr_slots runtime) no_slots)

-- `runtime_ = migrated` in RuleService::update.
unfoldable pub update_runtime : RuleSet → RuntimeState → RuntimeState
unfolding update_rules
update_runtime rules runtime =
    runtime_of (update_rules qer_kind rules.qers (qer_slots runtime) no_slots)
      (update_rules urr_kind rules.urrs (urr_slots runtime) no_slots)
