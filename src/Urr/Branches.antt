-- ===== src/Urr/Branches.antt =====
-- What evaluateUrr (src/domain/urr.cpp) does to the counters.
use upfpolicyengine.Common.{
  ℕ, ◌+◌, ◌<◌, ◌≡◌, ◌⊎◌, inl, inr, true, false, not, ◌&&◌, ◌||◌, Option, none, some, arith, leb,
}
use upfpolicyengine.Common.Text.{Text}
use upfpolicyengine.Types.{u64_mod}
use upfpolicyengine.Types.Arithmetic.{checked_add-Checked}
use upfpolicyengine.Rules.{Urr}
use upfpolicyengine.RuntimeState.{UsageCounterState}
use upfpolicyengine.Urr.{UrrEvaluation, advance, evaluate_urr}

-- The values that 64-bit counters can hold.
pub record IsRangedCounter (c : UsageCounterState) : Type 0 where
  pub packets : c.packets < u64_mod
  pub bytes : c.payload_bytes < u64_mod

-- The exact counters after one more packet, and whether both fit.
abbrev pub counted : UsageCounterState → ℕ → UsageCounterState
counted c bytes = record c { packets = c.packets + 1; payload_bytes = c.payload_bytes + bytes }

abbrev pub Fits : UsageCounterState → ℕ → Type 0
Fits c bytes = (c.packets + 1 < u64_mod) × (c.payload_bytes + bytes < u64_mod)

abbrev pub Advances : UsageCounterState → ℕ → Option UsageCounterState → Type 0
Advances c bytes o = (Fits c bytes × (o ≡ some (counted c bytes))) ⊎ (¬ Fits c bytes × (o ≡ none))

pub advance-Advances :
    (c : UsageCounterState) (bytes : ℕ) → IsRangedCounter c → Advances c bytes (advance c bytes)
unfolding advance
advance-Advances c bytes r =
    ground (arith, checked_add-Checked c.packets 1, checked_add-Checked c.payload_bytes bytes)

-- An evaluation that overflows changes nothing; any other counts the packet and its bytes once, and
-- reports exactly when the threshold is reached for the first time.
pub data Metered (urr : Urr) (c : UsageCounterState) (bytes : ℕ) (e : UrrEvaluation) : Type 0 where
  refused :
      ¬ Fits c bytes
      → e.overflow ≡ true
      → e.report_generated ≡ false
      → e.next ≡ c
      → Metered urr c bytes e
  metered :
      Fits c bytes
      → e.overflow ≡ false
      → e.report_generated
        ≡ not c.report_emitted && leb urr.volume_threshold_bytes (c.payload_bytes + bytes)
      → e.next
        ≡ record (counted c bytes) { report_emitted = c.report_emitted || e.report_generated }
      → Metered urr c bytes e

module _ (urr : Urr) (c : UsageCounterState) (bytes : ℕ) (session_id : Text) (version : ℕ) where
  -- From a counter in range, an evaluation either overflows and leaves the counter, or counts the
  -- packet and its bytes once and reports when the threshold is reached for the first time.
  pub evaluate_urr-Metered :
      IsRangedCounter c → Metered urr c bytes (evaluate_urr urr c bytes session_id version)
  unfolding evaluate_urr
  evaluate_urr-Metered r = elim (advance-Advances c bytes r) [
    | inl (fits, e) ↦ metered fits (ground arith) (ground arith) (ground arith)
    | inr (too_large, e) ↦
        refused too_large (rw (e, evaluate_urr)) (rw (e, evaluate_urr)) (rw (e, evaluate_urr))
  ]
