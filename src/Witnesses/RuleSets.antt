-- ===== src/Witnesses/RuleSets.antt =====
-- The theorems on rule sets and on what is carried over between them, at the fixture.
use upfpolicyengine.Common.{◌≡◌, refl, ◌↔◌, [], ◌∷◌, arith, All}
use upfpolicyengine.Common.Dict.{lookup}
use upfpolicyengine.Common.Text.{text}
use upfpolicyengine.Types.{success}
use upfpolicyengine.Address.{
  parse_prefix, has_host_bits, bit_at, parse_length, parse_address, split_slash, strtol, c_str,
}
use upfpolicyengine.Address.Host.{IsCanonical, parse_prefix-IsCanonical}
use upfpolicyengine.RuntimeState.{RuntimeState, TokenBucketState, default_runtime, default_bucket}
use upfpolicyengine.Validation.{validate_rule_set}
use upfpolicyengine.Validation.Accepts.{IsAccepted, validate_rule_set-IsAccepted}
use upfpolicyengine.Migration.{
  Slots, no_slots, qer_kind, update_rules, install_runtime, update_runtime,
}
use upfpolicyengine.Migration.Agreement.{IsConsistentRuntime, install_runtime-eq-update_runtime}
use upfpolicyengine.Migration.Carried.{Holds, update_rules-Holds}
use upfpolicyengine.Witnesses.Fixture.{inet, qer, rules, limits, network}

validate_rule_set-IsAccepted_example :
    (validate_rule_set rules limits ≡ success tt) ↔ IsAccepted rules limits
validate_rule_set-IsAccepted_example = validate_rule_set-IsAccepted rules limits

-- A runtime state with a bucket that has been drawn on.
abbrev used : RuntimeState
used = record default_runtime {
  qers = (1, record default_bucket { tokens_bytes = 300 }) ∷ [];
  qer_generations = (1, 1) ∷ [];
}

used_consistent : IsConsistentRuntime used
unfolding lookup
used_consistent = record { qers = λ k. ground arith; urrs = λ k. refl }

install_runtime-eq-update_runtime_example : install_runtime rules used ≡ update_runtime rules used
install_runtime-eq-update_runtime_example =
    install_runtime-eq-update_runtime rules used used_consistent

abbrev used_slots : Slots TokenBucketState
used_slots = record { states = used.qers; generations = used.qer_generations }

update_rules-Holds_example :
    All
      (Holds qer_kind used_slots used_consistent.qers
        (update_rules qer_kind (qer ∷ []) used_slots no_slots))
      (qer ∷ [])
update_rules-Holds_example =
    update_rules-Holds qer_kind used_slots used_consistent.qers (qer ∷ []) no_slots (tt, tt)

parse_prefix-IsCanonical_example : IsCanonical (record { network = network; length = 8 })
unfolding parse_prefix parse_length parse_address split_slash strtol c_str has_host_bits bit_at text
parse_prefix-IsCanonical_example =
    parse_prefix-IsCanonical inet (text "x/8") (record { network = network; length = 8 }) refl
