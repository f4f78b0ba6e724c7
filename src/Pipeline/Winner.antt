-- ===== src/Pipeline/Winner.antt =====
-- The winner of the loop over the PDRs (`PacketPipeline::process`): a PDR that matches the packet,
-- of the lowest precedence among those that do.
use native.Mathlib.Nat.{le_trans}
use upfpolicyengine.Common.{
  ◌≤◌, ◌<◌, ◌≡◌, refl, ◌⊎◌, inl, inr, true, Option, none, some, List, [], ◌∷◌, arith, ltb,
  push_back, Bool-cases, WhenSome, All, Any, here, there, some_inj, subst,
}
use upfpolicyengine.Address.{Inet}
use upfpolicyengine.Packet.{Packet}
use upfpolicyengine.Rules.{Pdr}
use upfpolicyengine.Decision.{MatchCandidate}
use upfpolicyengine.Matcher.{evaluate_candidate}
use upfpolicyengine.Pipeline.Select.{better, scan}

module _ (inet : Inet) (packet : Packet) where
  abbrev pub Matched : Pdr → Type 0
  Matched pdr = (evaluate_candidate inet pdr packet).matched ≡ true

  -- No PDR that matches comes before `w`.
  abbrev pub Yields : Pdr → Pdr → Type 0
  Yields w pdr = Matched pdr → w.precedence ≤ pdr.precedence

  -- A matching PDR of the list, of the lowest precedence.
  pub record IsWinner (pdrs : List Pdr) (w : Pdr) : Type 0 where
    pub listed : Any (λ pdr. pdr ≡ w) pdrs
    pub matched : Matched w
    pub lowest : All (Yields w) pdrs

  -- What the loop has found behind a winner so far.
  abbrev pub Scanned : List Pdr → Option Pdr → Option Pdr → Type 0
  Scanned pdrs before none = (before ≡ none) × All (λ pdr. ¬ Matched pdr) pdrs
  Scanned pdrs before (some w) =
      ((before ≡ some w) ⊎ (Any (λ pdr. pdr ≡ w) pdrs × Matched w))
      × All (Yields w) pdrs
      × WhenSome before (λ b. w.precedence ≤ b.precedence)

  -- A PDR that takes the place of the winner so far.
  taken_before :
      (pdr w : Pdr) (before : Option Pdr)
      → w.precedence ≤ pdr.precedence
      → WhenSome before (λ b. pdr.precedence < b.precedence)
      → WhenSome before (λ b. w.precedence ≤ b.precedence)
  taken_before pdr w none le lt = tt
  taken_before pdr w (some b) le lt = omega arith

  taken-Scanned :
      (pdr : Pdr) (pdrs : List Pdr) (before after : Option Pdr)
      → Matched pdr
      → WhenSome before (λ b. pdr.precedence < b.precedence)
      → Scanned pdrs (some pdr) after
      → Scanned (pdr ∷ pdrs) before after
  taken-Scanned pdr pdrs before none m lower h = cc (h.0)
  taken-Scanned pdr pdrs before (some w) m lower (inl e, all, le) = (
    inr (here (some_inj e), subst Matched (some_inj e) m),
    ((λ _. le), all),
    taken_before pdr w before le lower,
  )
  taken-Scanned pdr pdrs before (some w) m lower (inr (a, mw), all, le) =
      (inr (there a, mw), ((λ _. le), all), taken_before pdr w before le lower)

  -- A PDR that does not.
  abbrev Passed : Pdr → Option Pdr → Type 0
  Passed pdr none = ¬ Matched pdr
  Passed pdr (some b) = Yields b pdr

  Passed-Scanned :
      (pdr : Pdr) (pdrs : List Pdr) (before after : Option Pdr)
      → Passed pdr before
      → Scanned pdrs before after
      → Scanned (pdr ∷ pdrs) before after
  Passed-Scanned pdr pdrs none none pass h = (h.0, (pass, h.1))
  Passed-Scanned pdr pdrs (some b) none pass h = cc (h.0)
  Passed-Scanned pdr pdrs none (some w) pass (inl e, all, le) = cc e
  Passed-Scanned pdr pdrs none (some w) pass (inr (a, m), all, le) =
      (inr (there a, m), ((λ matched. absurd (pass matched)), all), tt)
  Passed-Scanned pdr pdrs (some b) (some w) pass (inl e, all, le) =
      (inl e, ((λ matched. le_trans le (pass matched)), all), le)
  Passed-Scanned pdr pdrs (some b) (some w) pass (inr (a, m), all, le) =
      (inr (there a, m), ((λ matched. le_trans le (pass matched)), all), le)

  abbrev Better : Pdr → Option Pdr → Type 0
  Better pdr before =
      let after = better (evaluate_candidate inet pdr packet).matched pdr before in
      ((after ≡ some pdr) × Matched pdr × WhenSome before (λ b. pdr.precedence < b.precedence))
      ⊎ ((after ≡ before) × Passed pdr before)

  Better-cases : (pdr : Pdr) (before : Option Pdr) → Better pdr before
  unfolding better
  Better-cases pdr none = elim (Bool-cases (evaluate_candidate inet pdr packet).matched) [
    | inl m ↦ inl (rw (m, better), m, tt)
    | inr m ↦ inr (rw (m, better), λ m'. cc)
  ]
  Better-cases pdr (some b) = elim (Bool-cases (evaluate_candidate inet pdr packet).matched) [
    | inr m ↦ inr (rw (m, better), λ m'. cc)
    | inl m ↦ elim (Bool-cases (ltb pdr.precedence b.precedence)) [
      | inl lower ↦ inl (rw (m, lower, better), m, ground arith)
      | inr higher ↦ inr (rw (m, higher, better), λ _. ground arith)
    ]
  ]

  scan-Scanned :
      (pdrs : List Pdr) (candidates : List MatchCandidate) (before : Option Pdr)
      → Scanned pdrs before (scan inet packet pdrs candidates before).1
  unfolding scan
  scan-Scanned [] candidates none = (refl, tt)
  scan-Scanned [] candidates (some b) = (inl refl, tt, omega arith)
  scan-Scanned (pdr ∷ pdrs) candidates before =
      let rest = scan-Scanned pdrs (push_back candidates (evaluate_candidate inet pdr packet)) in
      elim (Better-cases pdr before) [
        | inl (e, m, lower) ↦
            rw (e, scan) (taken-Scanned pdr pdrs before _ m lower (rest (some pdr)))
        | inr (e, pass) ↦ rw (e, scan) (Passed-Scanned pdr pdrs before _ pass (rest before))
      ]

  -- From no winner so far: the loop ends with a winner, or no PDR matches.
  abbrev pub Selected : List Pdr → Option Pdr → Type 0
  Selected pdrs none = All (λ pdr. ¬ Matched pdr) pdrs
  Selected pdrs (some w) = IsWinner pdrs w

  Scanned-Selected :
      (pdrs : List Pdr) (after : Option Pdr) → Scanned pdrs none after → Selected pdrs after
  Scanned-Selected pdrs none h = h.1
  Scanned-Selected pdrs (some w) (inl e, all, le) = cc e
  Scanned-Selected pdrs (some w) (inr (a, m), all, le) = record {
    listed = a;
    matched = m;
    lowest = all;
  }

  -- The loop over the PDRs ends with a listed PDR that matches the packet and is of the lowest
  -- precedence among those that match; or with none, and then no PDR matches.
  pub scan-Selected : (pdrs : List Pdr) → Selected pdrs (scan inet packet pdrs [] none).1
  scan-Selected pdrs = Scanned-Selected pdrs _ (scan-Scanned pdrs [] none)
