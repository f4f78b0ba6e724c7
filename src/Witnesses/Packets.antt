-- ===== src/Witnesses/Packets.antt =====
-- The theorems on packets, at the packets and rules of the fixture.
use upfpolicyengine.Common.{◌≡◌, refl, ◌↔◌, ◌⊎◌, true, none, [], ◌∷◌, arith, Any, here, there}
use upfpolicyengine.Common.Text.{text}
use upfpolicyengine.Address.Prefix.{contains-overlap}
use upfpolicyengine.Address.{contains, memory_eq, leading_mask}
use upfpolicyengine.Rules.{Pdr}
use upfpolicyengine.Matcher.{evaluate_candidate}
use upfpolicyengine.Matcher.Matches.{Matches, evaluate_candidate-Matches}
use upfpolicyengine.Validation.{validate_far, match_spaces_overlap}
use upfpolicyengine.Validation.Disjoint.{scan_reorder}
use upfpolicyengine.Far.{evaluate_far}
use upfpolicyengine.Far.Branches.{Forwards, evaluate_far-Forwards, validate_far-valid}
use upfpolicyengine.Pipeline.{new_pipeline, install, process, scan}
use upfpolicyengine.Pipeline.Winner.{Selected, scan-Selected}
use upfpolicyengine.Pipeline.Totality.{Decides}
use upfpolicyengine.Pipeline.Capacity.{IsBounded}
use upfpolicyengine.Pipeline.Bounds.{Reachable-IsBounded}
use upfpolicyengine.Pipeline.Reachable.{
  start, installs, IsInstalled, Reachable-IsInstalled, Reachable-Decides,
}
use upfpolicyengine.Witnesses.Fixture.{
  inet, ue, uplink, downlink, to_network, rules, packet, limits, ue_prefix,
}

Reachable-Decides_example :
    Decides inet
      (install (new_pipeline limits) rules).0
      packet
      (process inet (install (new_pipeline limits) rules).0 packet (text "r") (text "c"))
Reachable-Decides_example =
    Reachable-Decides inet limits (install (new_pipeline limits) rules).0 packet (text "r")
      (text "c") (installs rules start)

Reachable-IsInstalled_example : IsInstalled (install (new_pipeline limits) rules).0
Reachable-IsInstalled_example =
    Reachable-IsInstalled inet limits (install (new_pipeline limits) rules).0 (installs rules start)

scan-Selected_example :
    Selected inet packet
      (uplink ∷ downlink ∷ [])
      (scan inet packet (uplink ∷ downlink ∷ []) [] none).1
scan-Selected_example = scan-Selected inet packet (uplink ∷ downlink ∷ [])

swapped :
    (x : Pdr)
    → Any (λ y. y ≡ x) (uplink ∷ downlink ∷ []) ↔ Any (λ y. y ≡ x) (downlink ∷ uplink ∷ [])
swapped x = (to, from)
  where
    to : Any (λ y. y ≡ x) (uplink ∷ downlink ∷ []) → Any (λ y. y ≡ x) (downlink ∷ uplink ∷ [])
    to (here e) = there (here e)
    to (there (here e)) = here e
    to (there (there a)) = elim a [ ]

    from : Any (λ y. y ≡ x) (downlink ∷ uplink ∷ []) → Any (λ y. y ≡ x) (uplink ∷ downlink ∷ [])
    from (here e) = there (here e)
    from (there (here e)) = here e
    from (there (there a)) = elim a [ ]

scan_reorder_example :
    (scan inet packet (uplink ∷ downlink ∷ []) [] none).1
    ≡ (scan inet packet (downlink ∷ uplink ∷ []) [] none).1
unfolding match_spaces_overlap
scan_reorder_example =
    scan_reorder inet packet (uplink ∷ downlink ∷ []) (((λ same. refl), tt), (tt, tt))
      (ground arith, (ground arith, tt)) (ground arith) (downlink ∷ uplink ∷ []) swapped

evaluate_candidate-Matches_example :
    ((evaluate_candidate inet uplink packet).matched ≡ true) ↔ Matches uplink packet
evaluate_candidate-Matches_example = evaluate_candidate-Matches inet uplink packet

evaluate_far-Forwards_example : Forwards to_network packet (evaluate_far to_network packet)
unfolding evaluate_far
evaluate_far-Forwards_example = evaluate_far-Forwards to_network packet refl

validate_far-valid_example : (evaluate_far to_network packet).valid ≡ true
unfolding validate_far
validate_far-valid_example = validate_far-valid to_network packet refl

contains-overlap_example :
    (contains ue_prefix (record uplink.ue_prefix { length = 24 }).network ≡ true)
    ⊎ (contains (record uplink.ue_prefix { length = 16 }) ue_prefix.network ≡ true)
unfolding contains memory_eq leading_mask
contains-overlap_example =
    contains-overlap ue_prefix (record uplink.ue_prefix { length = 16 }) ue (ground arith)
      (ground arith) (ground arith) refl refl

Reachable-IsBounded_example : IsBounded (install (new_pipeline limits) rules).0
Reachable-IsBounded_example =
    Reachable-IsBounded inet limits (install (new_pipeline limits) rules).0 (omega arith)
      (installs rules start)
