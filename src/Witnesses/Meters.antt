-- ===== src/Witnesses/Meters.antt =====
-- The theorems on QERs, URRs and checked arithmetic, at the rules of the fixture.
use upfpolicyengine.Common.{◌+◌, ◌*◌, ◌≤◌, ◌≡◌, refl, true, [], ◌∷◌, arith}
use upfpolicyengine.Common.Text.{text}
use upfpolicyengine.Types.{checked_multiply, checked_add, add_u64}
use upfpolicyengine.RuntimeState.{TokenBucketState, default_bucket, default_counter}
use upfpolicyengine.Qer.{evaluate_qer, bit_micros_per_byte, charge, fill, refill_numerator}
use upfpolicyengine.Qer.Branches.{IsRangedQer, IsRangedBucket, Outcome, evaluate_qer-Outcome}
use upfpolicyengine.Qer.Conformance.{Arrival, serve, serve-le-burst}
use upfpolicyengine.Urr.{evaluate_urr}
use upfpolicyengine.Urr.Branches.{IsRangedCounter, Metered, evaluate_urr-Metered}
use upfpolicyengine.Urr.Reports.{meter, count, meter_once, meter-Totals, report_id_injective}
use upfpolicyengine.Witnesses.Fixture.{qer, urr}

abbrev full : TokenBucketState
full = record default_bucket { tokens_bytes = 1500 }

abbrev first : Arrival
first = record { bytes = 1200; now = 5 }

abbrev second : Arrival
second = record { bytes = 600; now = 500000 }

qer_ranged : IsRangedQer qer
qer_ranged = record { rate = omega arith; burst = omega arith }

full_ranged : IsRangedBucket full
full_ranged = record { tokens = omega arith; last_refill = omega arith; remainder = omega arith }

evaluate_qer-Outcome_example : Outcome qer full 1200 5 (evaluate_qer qer full 1200 5)
evaluate_qer-Outcome_example = evaluate_qer-Outcome qer full qer_ranged full_ranged 1200 5

serve-le-burst_example :
    bit_micros_per_byte * (serve qer full (first ∷ second ∷ [])).0 + 8000 * 0
    ≤ bit_micros_per_byte * 1500 + 0 + 8000 * 1000000
unfolding serve evaluate_qer charge fill refill_numerator checked_multiply checked_add add_u64
serve-le-burst_example =
    serve-le-burst qer full (first ∷ second ∷ []) 1000000 qer_ranged full_ranged
      (omega arith, (omega arith, tt)) (omega arith) (omega arith)

counter_ranged : IsRangedCounter default_counter
counter_ranged = record { packets = omega arith; bytes = omega arith }

evaluate_urr-Metered_example :
    Metered urr default_counter 1200 (evaluate_urr urr default_counter 1200 (text "s") 1)
evaluate_urr-Metered_example =
    evaluate_urr-Metered urr default_counter 1200 (text "s") 1 counter_ranged

meter-Totals_example :
    let last = (meter urr (text "s") 1 default_counter (600 ∷ 600 ∷ [])).1 in
    (last.packets ≡ 0 + 2) × (last.payload_bytes ≡ 0 + 1200) × (last.report_emitted ≡ true)
meter-Totals_example =
    meter-Totals urr (text "s") 1 default_counter (600 ∷ 600 ∷ []) (omega arith) (omega arith)

meter_once_example :
    let (reports, last) = meter urr (text "s") 1 default_counter (600 ∷ 600 ∷ []) in
    IsRangedCounter last × (0 + reports ≡ count last.report_emitted)
meter_once_example = meter_once urr (text "s") 1 default_counter (600 ∷ 600 ∷ []) counter_ranged

report_id_injective_example :
    (text "s" ≡ text "s")
    × (urr.id ≡ urr.id)
    × (urr.generation ≡ urr.generation)
    × (urr.generation ≡ urr.generation)
report_id_injective_example =
    report_id_injective (text "s") (text "s") urr urr urr.generation urr.generation refl
