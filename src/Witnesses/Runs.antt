-- ===== src/Witnesses/Runs.antt =====
-- The theorems on whole runs, at the built-in scenarios.
use upfpolicyengine.Common.{◌≡◌, refl, some, none, [], ◌∷◌, ◌==◌, if◌then◌else◌}
use upfpolicyengine.Common.Text.{text, text_Eq, text_eq}
use upfpolicyengine.Address.{Inet, ipv4, ipv6}
use upfpolicyengine.Scenarios.{run}
use upfpolicyengine.Scenarios.Outcomes.{outcome_of, expected, run-Comes}

-- A C library that knows the addresses of the scenarios.
abbrev pub demo_inet : Inet
demo_inet = record {
  pton = λ family s. elim family [
    | ipv4 ↦
        if s == text "10.10.0.0"
        then some (10 ∷ 10 ∷ 0 ∷ 0 ∷ [])
        else if s == text "10.10.0.7"
        then some (10 ∷ 10 ∷ 0 ∷ 7 ∷ [])
        else if s == text "192.0.2.20"
        then some (192 ∷ 0 ∷ 2 ∷ 20 ∷ [])
        else none
    | ipv6 ↦ none
  ];
  ntop = λ family bytes. none;
}

run-Comes_example :
    outcome_of (run demo_inet 7 (text "qer-rate-limit")) ≡ some (expected (text "qer-rate-limit"))
unfolding text text_eq
run-Comes_example =
    run-Comes demo_inet 7 (text "qer-rate-limit")
      (record { network = refl; ue = refl; server = refl })
