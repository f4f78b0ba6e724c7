-- ===== src/Cli/Exits.antt =====
-- The exit codes of `main`, and where it writes.
use upfpolicyengine.Common.{
  arith, ℕ, ◌≡◌, refl, ◌⊎◌, inl, inr, Bool, true, false, not, ◌&&◌, Option, none, some, List, [],
  ◌++◌, ◌==◌, if◌then◌else◌,
}
use upfpolicyengine.Common.Text.{Text, text, text_Eq, text_eq_iff, is_empty}
use upfpolicyengine.Types.{Result, success, failure}
use upfpolicyengine.Address.{Inet}
use upfpolicyengine.RunResult.{RunResult}
use upfpolicyengine.Scenarios.{scenario_names, run}
use upfpolicyengine.Scenarios.Literals.{ReadsAddresses}
use upfpolicyengine.Scenarios.Outcomes.{Outcome, outcome_of, expected, run-Comes}
use upfpolicyengine.Json.Library.{Json}
use upfpolicyengine.Json.Output.{render_json}
use upfpolicyengine.Json.RunFiles.{Ending, returned, uncaught, undetermined, run_files}
use upfpolicyengine.Cli.{
  Options, default_options, Parsed, parsed, help, rejected, Exit, exited, aborted, line_break,
  usage_text, help_text, is_known, show, run_scenario, run_documents, run_options, parse_arguments,
  main,
}

-- 0 with nothing on the standard error, 2 with nothing but the usage there, or 4 with nothing but a
-- line with an error there; no exit, only for the reason given.
abbrev pub IsSound : Type 0 → Exit → Type 0
IsSound Reason aborted = Reason
IsSound Reason (exited code out err) =
    ((code ≡ 0) × (err ≡ []))
    ⊎ (((code ≡ 2) × (out ≡ []) × (err ≡ usage_text))
        ⊎ ((code ≡ 4) × (out ≡ []) × (error : Text) × (err ≡ error ++ line_break)))

if-IsSound :
    (Reason : Type 0) (b : Bool) (e e' : Exit)
    → (b ≡ true → IsSound Reason e)
    → (b ≡ false → IsSound Reason e')
    → IsSound Reason (if b then e else e')
if-IsSound Reason true e e' h h' = h refl
if-IsSound Reason false e e' h h' = h' refl

usage-IsSound : (Reason : Type 0) → IsSound Reason (exited 2 [] usage_text)
usage-IsSound Reason = inr (inl (refl, refl, refl))

-- The JSON library is asked to write, or to read.
abbrev UsesJson : Options → Type 0
UsesJson o = (o.output ≡ text "json") ⊎ (is_empty o.rules ≡ false)

abbrev pub AsksForJson : List Text → Type 0
AsksForJson arguments =
    (o : Options) × (parse_arguments default_options arguments ≡ parsed o) × UsesJson o

module _ (json : Json) (inet : Inet) (files : Text → Option Text) (arrival : ℕ) where
  abbrev Sound : Options → Exit → Type 0
  Sound o = IsSound (UsesJson o)

  show-IsSound :
      (o : Options) (result : RunResult) → Sound o (show json inet files arrival o result)
  unfolding show
  show-IsSound o result =
      if-IsSound (UsesJson o) (o.output == text "json") _ _
        (λ asked.
          rendered (render_json json inet result) ((text_eq_iff o.output (text "json")).0 asked))
        (λ human. inl (refl, refl))
    where
      rendered :
          (r : Result Text)
          → o.output ≡ text "json"
          → Sound o (elim r as (λ x. Exit) [
            | failure what ↦ aborted
            | success document ↦ exited 0 (document ++ line_break) []
          ])
      rendered (failure what) asked = inl asked
      rendered (success document) asked = inl (refl, refl)

  module _ (reads : ReadsAddresses inet) where
    run_scenario-IsSound : (o : Options) → Sound o (run_scenario json inet files arrival o)
    unfolding run_scenario
    run_scenario-IsSound o =
        if-IsSound (UsesJson o) (not (is_known false o.scenario scenario_names)) _ _
          (λ unknown. usage-IsSound (UsesJson o))
          (λ known. by_run (run inet arrival o.scenario) (run-Comes inet arrival o.scenario reads))
      where
        none-some : {x : Outcome} → ◌≡◌ {A = Option Outcome} none (some x) → ⊥
        none-some e = cc e

        by_run :
            (r : Option RunResult)
            → outcome_of r ≡ some (expected o.scenario)
            → Sound o (elim r as (λ x. Exit) [
              | none ↦ aborted
              | some result ↦ show json inet files arrival o result
            ])
        by_run none comes = absurd (none-some comes)
        by_run (some result) comes = show-IsSound o result

    run_documents-IsSound :
        (o : Options) → is_empty o.rules ≡ false → Sound o (run_documents json inet files arrival o)
    unfolding run_documents
    run_documents-IsSound o named = by_ending (run_files json inet files o.rules o.packets)
      where
        by_ending :
            (e : Ending RunResult)
            → Sound o (elim e as (λ x. Exit) [
              | returned r ↦ elim r as (λ x. Exit) [
                | failure error ↦ exited 4 [] (error ++ line_break)
                | success result ↦ show json inet files arrival o result
              ]
              | uncaught what ↦ aborted
              | undetermined ↦ aborted
            ])
        by_ending (returned (failure error)) = inr (inr (refl, refl, error, refl))
        by_ending (returned (success result)) = show-IsSound o result
        by_ending (uncaught what) = inr named
        by_ending undetermined = inr named

    run_options-IsSound : (o : Options) → Sound o (run_options json inet files arrival o)
    unfolding run_options
    run_options-IsSound o =
        let P = UsesJson o in
        if-IsSound P o.list _ _ (λ listed. inl (refl, refl))
          λ e.
            if-IsSound P (not (o.output == text "human") && not (o.output == text "json")) _ _
              (λ other. usage-IsSound P)
              λ e.
                if-IsSound P (not (is_empty o.scenario) && is_empty o.rules && is_empty o.packets) _
                  _ (λ one. run_scenario-IsSound o)
                  λ e.
                    if-IsSound P
                      (is_empty o.scenario && not (is_empty o.rules) && not (is_empty o.packets)) _
                      _ (λ both. run_documents-IsSound o (ground (arith, both)))
                      (λ e. usage-IsSound P)

    -- Where `inet_pton` reads the addresses of the scenarios, whatever the arguments: `main` exits
    -- with 0 and writes nothing to the standard error, with 2 and writes the usage there and nothing
    -- else, or with 4 and writes a line with an error there and nothing else. Only where the
    -- arguments ask for JSON output or for files can it be left by an exception or be undefined. The
    -- codes 3, which the README gives for input that cannot be read, and 5, for an arithmetic or
    -- invariant failure, do not occur.
    pub main-IsSound :
        (arguments : List Text)
        → IsSound (AsksForJson arguments) (main json inet files arrival arguments)
    unfolding main
    main-IsSound arguments = by_arguments (parse_arguments default_options arguments) refl
      where
        weaken :
            (o : Options) (e : Exit)
            → parse_arguments default_options arguments ≡ parsed o
            → Sound o e
            → IsSound (AsksForJson arguments) e
        weaken o aborted p h = (o, p, h)
        weaken o (exited code out err) p h = h

        by_arguments :
            (r : Parsed)
            → parse_arguments default_options arguments ≡ r
            → IsSound (AsksForJson arguments) (elim r as (λ x. Exit) [
              | help ↦ exited 0 help_text []
              | rejected ↦ exited 2 [] usage_text
              | parsed o ↦ run_options json inet files arrival o
            ])
        by_arguments help p = inl (refl, refl)
        by_arguments rejected p = usage-IsSound (AsksForJson arguments)
        by_arguments (parsed o) p =
            weaken o (run_options json inet files arrival o) p (run_options-IsSound o)
