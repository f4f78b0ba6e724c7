-- ===== src/Urr/Reports.antt =====
-- The threshold reports of a URR over a history of packets, and their identifiers (src/domain/urr.cpp).
use mathlib.Core.List.{append_assoc}
use upfpolicyengine.Common.{
  ℕ, ◌+◌, ◌<◌, ◌≡◌, refl, sym, ◌∙◌, Bool, true, false, ◌||◌, List, [], ◌∷◌, ◌++◌, arith, leb,
  length,
}
use upfpolicyengine.Common.Text.{Text, text}
use upfpolicyengine.Common.Decimal.{decimal, NotDigit, peel_decimal}
use upfpolicyengine.Types.{u64_mod}
use upfpolicyengine.Rules.{Urr}
use upfpolicyengine.RuntimeState.{UsageCounterState}
use upfpolicyengine.Urr.{evaluate_urr, report_id}
use upfpolicyengine.Urr.Branches.{
  IsRangedCounter, Fits, Metered, refused, metered, evaluate_urr-Metered,
}

abbrev pub count : Bool → ℕ
count true = 1
count false = 0

-- The number of reports in a history of payloads, and the counter at its end. An overflow leaves
-- the counter as it was, so this is the counter that the pipeline goes on with.
unfoldable pub meter : Urr → Text → ℕ → UsageCounterState → List ℕ → ℕ × UsageCounterState
meter urr session_id version c [] = (0, c)
meter urr session_id version c (bytes ∷ later) =
    let e = evaluate_urr urr c bytes session_id version in
    let (reports, last) = meter urr session_id version e.next later in
    (count e.report_generated + reports, last)

module _ (urr : Urr) (session_id : Text) (version : ℕ) where
  -- The counter stays in range, and a report is made only where none was made before.
  step_once :
      (c : UsageCounterState) (bytes : ℕ)
      → IsRangedCounter c
      → let e = evaluate_urr urr c bytes session_id version in
        IsRangedCounter e.next
        × (count c.report_emitted + count e.report_generated ≡ count e.next.report_emitted)
  step_once c bytes r = go (evaluate_urr-Metered urr c bytes session_id version r)
    where
      go :
          Metered urr c bytes (evaluate_urr urr c bytes session_id version)
          → let e = evaluate_urr urr c bytes session_id version in
            IsRangedCounter e.next
            × (count c.report_emitted + count e.report_generated ≡ count e.next.report_emitted)
      go (refused _ _ none_made same) = rw (same, none_made) (r, omega arith)
      go (metered fits _ made next) = rw next (ground arith, ground arith)

  -- From a counter in range, any history ends with a counter in range, and the number of reports is
  -- what the flag has gone up by: one report at most, and none after a report.
  pub meter_once :
      (c : UsageCounterState) (payloads : List ℕ)
      → IsRangedCounter c
      → let (reports, last) = meter urr session_id version c payloads in
        IsRangedCounter last × (count c.report_emitted + reports ≡ count last.report_emitted)
  unfolding meter
  meter_once c [] r = (r, omega arith)
  meter_once c (bytes ∷ later) r =
      let step = step_once c bytes r in
      let e = evaluate_urr urr c bytes session_id version in
      let rest = meter_once e.next later step.0 in (rest.0, omega (arith, step.1, rest.1))

  abbrev total : List ℕ → ℕ
  total [] = 0
  total (bytes ∷ later) = bytes + total later

  abbrev reached : UsageCounterState → List ℕ → Bool
  reached c [] = false
  reached c (bytes ∷ later) =
      leb urr.volume_threshold_bytes (c.payload_bytes + total (bytes ∷ later))

  abbrev Counts : UsageCounterState → ℕ → UsageCounterState → Type 0
  Counts c bytes next =
      (next.packets ≡ c.packets + 1)
      × (next.payload_bytes ≡ c.payload_bytes + bytes)
      × (next.report_emitted
          ≡ c.report_emitted || leb urr.volume_threshold_bytes (c.payload_bytes + bytes))

  step_totals :
      (c : UsageCounterState) (bytes : ℕ)
      → Fits c bytes
      → Counts c bytes (evaluate_urr urr c bytes session_id version).next
  step_totals c bytes fits =
      go (evaluate_urr-Metered urr c bytes session_id version (omega (arith, fits)))
    where
      go :
          Metered urr c bytes (evaluate_urr urr c bytes session_id version)
          → Counts c bytes (evaluate_urr urr c bytes session_id version).next
      go (refused too_large _ _ _) = absurd (too_large fits)
      go (metered _ _ made next) = rw (next, made) (refl, refl, ground arith)

  emitted_total :
      (c : UsageCounterState) (bytes : ℕ) (later : List ℕ) (next : UsageCounterState) {last : Bool}
      → Counts c bytes next
      → last ≡ next.report_emitted || reached next later
      → last ≡ c.report_emitted || reached c (bytes ∷ later)
  emitted_total c bytes [] next step h = ground arith
  emitted_total c bytes (x ∷ later) next step h = ground arith

  -- The counter at the end of a history, against the one at its beginning.
  abbrev Totals : UsageCounterState → List ℕ → UsageCounterState → Type 0
  Totals c payloads last =
      (last.packets ≡ c.packets + length payloads)
      × (last.payload_bytes ≡ c.payload_bytes + total payloads)
      × (last.report_emitted ≡ c.report_emitted || reached c payloads)

  -- While neither the packets nor the bytes leave 64 bits, the counter ends with every packet and all
  -- its bytes counted, and the report has been made at the end exactly if it was made before or the
  -- total has reached the threshold.
  pub meter-Totals :
      (c : UsageCounterState) (payloads : List ℕ)
      → c.packets + length payloads < u64_mod
      → c.payload_bytes + total payloads < u64_mod
      → Totals c payloads (meter urr session_id version c payloads).1
  unfolding meter
  meter-Totals c [] hp hb = (omega arith, omega arith, ground arith)
  meter-Totals c (bytes ∷ later) hp hb =
      let step = step_totals c bytes (omega arith) in
      let next = (evaluate_urr urr c bytes session_id version).next in
      let rest = meter-Totals next later (omega (arith, step)) (omega (arith, step)) in
      (
        omega (arith, step, rest),
        omega (arith, step, rest),
        emitted_total c bytes later next step rest.2,
      )

-- The identifier, grouped from the left.
abbrev grouped : Text → Urr → ℕ → Text
grouped s urr v =
    ((s ++ (text "-urr" ++ b'-' ∷ decimal urr.id.value))
      ++ (text "-" ++ b'g' ∷ decimal urr.generation))
    ++ (text "-" ++ b'v' ∷ decimal v)

report_id-grouped : (s : Text) (urr : Urr) (v : ℕ) → report_id s urr v ≡ grouped s urr v
unfolding report_id text
report_id-grouped s urr v = simp append_assoc

v-NotDigit : NotDigit b'v'
v-NotDigit = omega arith

g-NotDigit : NotDigit b'g'
g-NotDigit = omega arith

dash-NotDigit : NotDigit b'-'
dash-NotDigit = omega arith

-- A report's identifier names its session, rule, generation and version: two reports have the same
-- identifier only if they agree in all four.
pub report_id_injective :
    (s s' : Text) (urr urr' : Urr) (v v' : ℕ)
    → report_id s urr v ≡ report_id s' urr' v'
    → (s ≡ s') × (urr.id ≡ urr'.id) × (urr.generation ≡ urr'.generation) × (v ≡ v')
report_id_injective s s' urr urr' v v' e =
    let whole = sym (report_id-grouped s urr v) ∙ e ∙ report_id-grouped s' urr' v' in
    let version = peel_decimal b'v' (text "-") _ _ v v' v-NotDigit whole in
    let generation =
      peel_decimal b'g' (text "-") _ _ urr.generation urr'.generation g-NotDigit version.0 in
    let id =
      peel_decimal b'-' (text "-urr") _ _ urr.id.value urr'.id.value dash-NotDigit generation.0 in
    (id.0, ground (arith, id.1), generation.1, version.1)
