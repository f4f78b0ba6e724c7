-- ===== src/Pipeline/Stages.antt =====
-- Each part of `PacketPipeline::process` keeps to the effects of its terminal result, and none of
-- them dereferences a null pointer, on a validated rule set whose rules have their state.
use upfpolicyengine.Common.{
  ℕ, ◌≡◌, refl, sym, subst, ◌⊎◌, inl, inr, true, ◌&&◌, Option, none, some, [], arith, has_value,
  leb, length, Bool-cases, Option-cases, WhenSome, All, Any-All, ◌==◌, ◌<◌,
}
use upfpolicyengine.Common.Dict.{lookup, index_present}
use upfpolicyengine.Common.Text.{text, text_Eq, text_eq_iff}
use upfpolicyengine.Types.{RuleId, Interface_Eq}
use upfpolicyengine.Address.{Inet}
use upfpolicyengine.Packet.{Packet}
use upfpolicyengine.Rules.{Pdr, Qer, RuleSet, find_qer, Qer_HasId, Urr_HasId, Far_HasId}
use upfpolicyengine.Rules.Lookup.{find_rule-All}
use upfpolicyengine.Decision.{
  PacketDecision, TerminalResult, default_qer_decision, forwarded_to_n3, forwarded_to_n6,
  far_dropped, packet_queue_full, shutdown_deadline, no_match, malformed_packet, gate_closed,
  rate_limited, arithmetic_error, capacity_error,
}
use upfpolicyengine.Qer.{QerEvaluation, evaluate_qer, charge}
use upfpolicyengine.Urr.{UrrEvaluation}
use upfpolicyengine.RuntimeState.{TokenBucketState, default_bucket}
use upfpolicyengine.Validation.Pdrs.{IsValidPdr}
use upfpolicyengine.Migration.Coverage.{Covers}
use upfpolicyengine.Pipeline.State.{Pipeline, valid_packet, Flow, go, exit_retained}
use upfpolicyengine.Pipeline.Process.{admit, select, store_refusal, settle_qer, apply_qer}
use upfpolicyengine.Pipeline.Select.{scan}
use upfpolicyengine.Pipeline.Winner.{IsWinner, Selected, scan-Selected}
use upfpolicyengine.Pipeline.Flow.{Ensures, if-Ensures}
use upfpolicyengine.Pipeline.Effects.{Frame-refl, Done, retain-Done, insert-SameKeys}

-- What `process` goes on with behind its first guards.
abbrev pub Admitted : Pipeline → Packet → RuleSet → Type 0
Admitted p packet rules =
    (p.rules ≡ some rules)
    × (valid_packet packet ≡ true)
    × (packet.session_id ≡ rules.session_id)
    × (length p.decisions < p.limits.results)

-- To go by an equation of the part.
pub by_eq {ℓ} :
    {A : Type ℓ} (P : A → Type 0) (E : Pipeline → PacketDecision → Type 0) {m m' : Flow A}
    → m ≡ m'
    → Ensures P E m'
    → Ensures P E m
by_eq P E e h = subst (Ensures P E) (sym e) h

module _ (p : Pipeline) (packet : Packet) (d : PacketDecision) where
  abbrev Exits : Pipeline → PacketDecision → Type 0
  Exits = Done packet p

  abbrev Goes : RuleSet → Type 0
  Goes = Admitted p packet

  admit_rules :
      (o : Option RuleSet)
      → p.rules ≡ o
      → length p.decisions < p.limits.results
      → Ensures (Admitted p packet) (Done packet p) (admit p packet d)
  unfolding admit
  admit_rules none e room =
      let no_rules : admit p packet d ≡ exit_retained p (record d { terminal_result = no_match }) =
        ground arith in
      by_eq Goes Exits no_rules (retain-Done packet p p _ (refl, Frame-refl p))
  admit_rules (some rules) e room =
      elim (Bool-cases (valid_packet packet && packet.session_id == rules.session_id)) [
        | inl fits ↦
            let accepted : admit p packet d ≡ go rules = ground arith in
            by_eq Goes Exits accepted (
              e,
              ground arith,
              (text_eq_iff packet.session_id rules.session_id).0 (ground arith),
              room,
            )
        | inr unfit ↦
            let refused : admit p packet d
                ≡ exit_retained p (record d { terminal_result = malformed_packet }) =
              ground arith in
            by_eq Goes Exits refused (retain-Done packet p p _ (refl, Frame-refl p))
      ]

  pub admit-Ensures : Ensures (Admitted p packet) (Done packet p) (admit p packet d)
  unfolding admit
  admit-Ensures = elim (Bool-cases (leb p.limits.results (length p.decisions))) [
    | inl full ↦ rw (full, admit) (refl, Frame-refl p)
    | inr room ↦ admit_rules p.rules refl (ground arith)
  ]

-- What is known of the winner.
abbrev pub Won : Inet → Packet → RuleSet → Pdr → Type 0
Won inet packet rules winner = IsWinner inet packet rules.pdrs winner × IsValidPdr rules winner

-- A bucket or a counter that is to be stored belongs to a rule that has one.
abbrev pub BucketHeld : Pipeline → Option (ℕ × TokenBucketState) → Type 0
BucketHeld p bucket = WhenSome bucket (λ b. has_value (lookup b.0 p.runtime.qers) ≡ true)

abbrev pub UsageHeld : Pipeline → Option (ℕ × UrrEvaluation) → Type 0
UsageHeld p usage = WhenSome usage (λ u. has_value (lookup u.0 p.runtime.urrs) ≡ true)

-- The ways in which a QER refuses a packet.
data Refusal : TerminalResult → Type 0 where
  by_gate : Refusal gate_closed
  by_rate : Refusal rate_limited
  by_overflow : Refusal arithmetic_error

Refusal-of :
    (f : TerminalResult)
    → (f ≡ gate_closed) ⊎ ((f ≡ rate_limited) ⊎ (f ≡ arithmetic_error))
    → Refusal f
Refusal-of f (inl e) = subst Refusal (sym e) by_gate
Refusal-of f (inr (inl e)) = subst Refusal (sym e) by_rate
Refusal-of f (inr (inr e)) = subst Refusal (sym e) by_overflow

-- An evaluation of a QER names one of these, whether it refuses or not.
evaluate_qer-Refusal :
    (qer : Qer) (b : TokenBucketState) (bytes now : ℕ)
    → Refusal (evaluate_qer qer b bytes now).failure
unfolding evaluate_qer charge
evaluate_qer-Refusal qer b bytes now = Refusal-of _ (ground arith)

module _ (inet : Inet) (p : Pipeline) (rules : RuleSet) (packet : Packet)
    (valid : All (IsValidPdr rules) rules.pdrs) (covers : Covers rules p.runtime) where
  abbrev Ends : Pipeline → PacketDecision → Type 0
  Ends = Done packet p

  select_from :
      (d : PacketDecision) (winner : Option Pdr)
      → (scan inet packet rules.pdrs [] none).1 ≡ winner
      → Selected inet packet rules.pdrs winner
      → Ensures (λ r. Won inet packet rules r.0) Ends (select inet p rules packet d)
  unfolding select
  select_from d none e h = rw (e, select) (retain-Done packet p p _ (refl, Frame-refl p))
  select_from d (some w) e h =
      rw (e, select) (h, Any-All (IsValidPdr rules) rules.pdrs valid h.listed)

  pub select-Ensures :
      (d : PacketDecision)
      → Ensures (λ r. Won inet packet rules r.0) Ends (select inet p rules packet d)
  select-Ensures d = select_from d _ refl (scan-Selected inet packet rules.pdrs)

  -- The pipeline behind the QER is the one before it.
  abbrev pub QerDone : Pipeline × PacketDecision × Option (ℕ × TokenBucketState) → Type 0
  QerDone r = (r.0 ≡ p) × BucketHeld p r.2

  Refusal-Done :
      (f : TerminalResult) (d : PacketDecision) (key : ℕ) (next : TokenBucketState)
      → Refusal f
      → has_value (lookup key p.runtime.qers) ≡ true
      → Done packet p (store_refusal f p key next) (record d { terminal_result = f })
  Refusal-Done gate_closed d key next by_gate held = (refl, Frame-refl p)
  Refusal-Done arithmetic_error d key next by_overflow held = (refl, Frame-refl p)
  Refusal-Done rate_limited d key next by_rate held = (
    (refl, refl, (refl, refl)),
    (refl, refl, insert-SameKeys key next p.runtime.qers held, (λ k. refl), refl, refl),
  )
  Refusal-Done forwarded_to_n3 d key next r held = elim r [ ]
  Refusal-Done forwarded_to_n6 d key next r held = elim r [ ]
  Refusal-Done far_dropped d key next r held = elim r [ ]
  Refusal-Done no_match d key next r held = elim r [ ]
  Refusal-Done malformed_packet d key next r held = elim r [ ]
  Refusal-Done packet_queue_full d key next r held = elim r [ ]
  Refusal-Done shutdown_deadline d key next r held = elim r [ ]
  Refusal-Done capacity_error d key next r held = elim r [ ]

  settle_qer-Ensures :
      (d : PacketDecision) (id : RuleId) (qer : Qer) (e : QerEvaluation)
      → qer.id ≡ id
      → has_value (lookup qer.id.value p.runtime.qers) ≡ true
      → Refusal e.failure
      → Ensures QerDone Ends (settle_qer p d id qer e)
  unfolding settle_qer
  settle_qer-Ensures d id qer e same held refusal =
      if-Ensures QerDone Ends e.decision.allowed _ _ (λ ok. (refl, rw (← same) held))
        (λ refused.
          let d' = record d { qer = e.decision; terminal_result = e.failure } in
          retain-Done packet p _ d' (
            Refusal-Done e.failure (record d { qer = e.decision }) qer.id.value e.next refusal
              held))

  settle_found :
      (winner : Pdr) (d : PacketDecision) (id : RuleId) (qer : Qer)
      → winner.qer_id ≡ some id
      → find_qer rules id ≡ some qer
      → Ensures QerDone Ends (apply_qer p rules packet winner d)
  unfolding apply_qer find_qer
  settle_found winner d id qer e found =
      let (held, same) =
        find_rule-All (λ q. has_value (lookup q.id.value p.runtime.qers) ≡ true) id rules.qers
          covers.0 found in
      elim (Option-cases (lookup qer.id.value p.runtime.qers)) [
        | inl missing ↦ absurd (ground (arith, held))
        | inr (bucket, there) ↦
            let settled : apply_qer p rules packet winner d
                ≡ settle_qer p d id qer
                    (evaluate_qer qer bucket packet.payload_bytes packet.arrival_time_micros) =
              rw (
                e,
                apply_qer,
                found,
                index_present qer.id.value default_bucket p.runtime.qers there,
              ) in
            by_eq QerDone Ends settled (
              settle_qer-Ensures d id qer _ same held
                (evaluate_qer-Refusal qer bucket packet.payload_bytes packet.arrival_time_micros))
      ]

  no_qer :
      (winner : Pdr) (d : PacketDecision)
      → winner.qer_id ≡ none
      → Ensures QerDone Ends (apply_qer p rules packet winner d)
  unfolding apply_qer
  no_qer winner d e =
      let d' = record d {
        qer = record default_qer_decision { outcome = text "NOT_APPLICABLE"; allowed = true };
      } in
      let skipped : apply_qer p rules packet winner d ≡ go (p, d', none) = rw (e, apply_qer) in
      by_eq QerDone Ends skipped (refl, tt)

  pub apply_qer-Ensures :
      (winner : Pdr) (d : PacketDecision)
      → IsValidPdr rules winner
      → Ensures QerDone Ends (apply_qer p rules packet winner d)
  unfolding apply_qer
  apply_qer-Ensures winner d v = elim (Option-cases winner.qer_id) [
    | inl e ↦ no_qer winner d e
    | inr (id, e) ↦ elim (Option-cases (find_qer rules id)) [
      | inl missing ↦ absurd (ground (arith, v.qer_found))
      | inr (qer, found) ↦ settle_found winner d id qer e found
    ]
  ]
