-- ===== src/Cli/Scenario.antt =====
-- `main` on `--scenario NAME`.
use upfpolicyengine.Common.{
  ℕ, ◌≡◌, refl, sym, subst, ◌∙◌, ◌⊎◌, inl, inr, Bool, true, false, ◌||◌, Option, none, some,
  some_inj, List, [], ◌∷◌, ◌==◌, Any, here, there, arith, Bool-cases,
}
use upfpolicyengine.Common.Text.{Text, text, text_Eq, text_eq, text_eq_iff}
use upfpolicyengine.Address.{Inet}
use upfpolicyengine.RunResult.{RunResult}
use upfpolicyengine.Scenarios.{scenario_names, run}
use upfpolicyengine.Scenarios.Literals.{ReadsAddresses}
use upfpolicyengine.Scenarios.Outcomes.{Outcome, outcome, outcome_of, expected, run-Comes}
use upfpolicyengine.Json.Library.{Json}
use upfpolicyengine.Human.{render_human}
use upfpolicyengine.Cli.{
  Options, default_options, Exit, exited, usage, is_known, show, run_scenario, run_options,
  parse_arguments, main,
}

abbrev pub Listed : Text → Type 0
Listed name = Any (λ n. n ≡ name) scenario_names

known-Any :
    (known : Bool) (name : Text) (names : List Text)
    → is_known known name names ≡ true
    → (known ≡ true) ⊎ Any (λ n. n ≡ name) names
unfolding is_known
known-Any known name [] e = inl e
known-Any known name (n ∷ names) e = elim (known-Any (known || n == name) name names e) [
  | inr later ↦ inr (there later)
  | inl now ↦ elim (Bool-cases known) [
    | inl before ↦ inl before
    | inr fresh ↦ inr (here ((text_eq_iff n name).0 (ground (arith, now, fresh))))
  ]
]

known_still : (name : Text) (names : List Text) → is_known true name names ≡ true
unfolding is_known
known_still name [] = refl
known_still name (n ∷ names) = known_still name names

Any-known :
    (known : Bool) (name : Text) (names : List Text)
    → Any (λ n. n ≡ name) names
    → is_known known name names ≡ true
unfolding is_known
Any-known known name [] a = elim a [ ]
Any-known known name (n ∷ names) (here e) =
    subst (λ b. is_known b name names ≡ true) (sym either) (known_still name names)
  where
    either : known || n == name ≡ true
    either = ground (arith, (text_eq_iff n name).1 e)
Any-known known name (n ∷ names) (there a) = Any-known (known || n == name) name names a

known-Listed : (name : Text) → is_known false name scenario_names ≡ true → Listed name
known-Listed name known = elim (known-Any false name scenario_names known) [
  | inl e ↦ absurd (false-true e)
  | inr listed ↦ listed
]
  where
    false-true : false ≡ true → ⊥
    false-true e = cc e

module _ (json : Json) (inet : Inet) (files : Text → Option Text) (arrival : ℕ) where
  abbrev asked_for : Text → Options
  asked_for name = record default_options { scenario = name }

  -- A listed name is run and reported, and any other is a use error.
  abbrev pub Ends : Text → Exit → Type 0
  Ends name exit =
      (Listed name
        × (result : RunResult) × (exit ≡ exited 0 (render_human result) [])
        × (outcome result ≡ expected name))
      ⊎ ((¬ Listed name) × (exit ≡ usage))

  show_human :
      (name : Text) (result : RunResult)
      → show json inet files arrival (asked_for name) result ≡ exited 0 (render_human result) []
  unfolding show text text_eq
  show_human name result = refl

  run_scenario-shows :
      (name : Text) (result : RunResult)
      → is_known false name scenario_names ≡ true
      → run inet arrival name ≡ some result
      → run_scenario json inet files arrival (asked_for name) ≡ exited 0 (render_human result) []
  unfolding run_scenario
  run_scenario-shows name result known e = rw (run_scenario, known, e) (show_human name result)

  run_scenario-refuses :
      (name : Text)
      → is_known false name scenario_names ≡ false
      → run_scenario json inet files arrival (asked_for name) ≡ usage
  unfolding run_scenario
  run_scenario-refuses name unknown = rw (run_scenario, unknown) refl

  main_empty : main json inet files arrival (text "--scenario" ∷ [] ∷ []) ≡ usage
  unfolding main parse_arguments run_options text text_eq
  main_empty = refl

  main_scenario :
      (c : ℕ) (name : Text)
      → main json inet files arrival (text "--scenario" ∷ (c ∷ name) ∷ [])
        ≡ run_scenario json inet files arrival (asked_for (c ∷ name))
  unfolding main parse_arguments run_options text text_eq
  main_scenario c name = refl

  run_scenario-known :
      (name : Text) (o : Option RunResult)
      → is_known false name scenario_names ≡ true
      → run inet arrival name ≡ o
      → outcome_of o ≡ some (expected name)
      → Ends name (run_scenario json inet files arrival (asked_for name))
  run_scenario-known name none known e comes = absurd (none-some comes)
    where
      none-some : {x : Outcome} → ◌≡◌ {A = Option Outcome} none (some x) → ⊥
      none-some e = cc e
  run_scenario-known name (some result) known e comes =
      inl (known-Listed name known, result, run_scenario-shows name result known e, some_inj comes)

  run_scenario-Ends :
      (name : Text)
      → ReadsAddresses inet
      → Ends name (run_scenario json inet files arrival (asked_for name))
  run_scenario-Ends name reads = elim (Bool-cases (is_known false name scenario_names)) [
    | inl known ↦ run_scenario-known name _ known refl (run-Comes inet arrival name reads)
    | inr unknown ↦ inr (
      (λ listed. true-false (sym (Any-known false name scenario_names listed) ∙ unknown)),
      run_scenario-refuses name unknown,
    )
  ]
    where
      true-false : true ≡ false → ⊥
      true-false e = cc e

  empty-Unlisted : ¬ Listed []
  unfolding text text_eq is_known
  empty-Unlisted listed = true-false (sym (Any-known false [] scenario_names listed) ∙ unknown)
    where
      true-false : true ≡ false → ⊥
      true-false e = cc e

      unknown : is_known false [] scenario_names ≡ false
      unknown = refl

  -- Where `inet_pton` reads the addresses of the scenarios: `--scenario NAME` with a name from the
  -- list exits with 0 and the report of a run that comes to what is expected of the name, and with
  -- any other name, also the empty one, with 2 and the usage on the standard error.
  pub main-Ends :
      (name : Text)
      → ReadsAddresses inet
      → Ends name (main json inet files arrival (text "--scenario" ∷ name ∷ []))
  main-Ends name reads = by_name name
    where
      by_name :
          (name : Text) → Ends name (main json inet files arrival (text "--scenario" ∷ name ∷ []))
      by_name [] = inr (empty-Unlisted, main_empty)
      by_name (c ∷ name) =
          subst (Ends (c ∷ name)) (sym (main_scenario c name)) (run_scenario-Ends (c ∷ name) reads)
