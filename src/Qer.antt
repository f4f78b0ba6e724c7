-- ===== src/Qer.antt =====
-- src/domain/qer.cpp: the gate and the token bucket of a QER.
pub mod Branches
pub mod Conformance
use upfpolicyengine.Common.{
  ℕ, ◌+◌, ◌-◌, ◌/◌, ◌%◌, min, Bool, true, false, Option, none, some, ltb, if◌then◌else◌,
}
use upfpolicyengine.Common.Text.{text}
use upfpolicyengine.Types.{is_closed, add_u64, checked_add, checked_multiply}
use upfpolicyengine.Rules.{Qer}
use upfpolicyengine.RuntimeState.{TokenBucketState}
use upfpolicyengine.Decision.{
  QerDecision, TerminalResult, gate_closed, arithmetic_error, rate_limited,
}

pub record QerEvaluation : Type 0 where
  pub decision : QerDecision
  pub next : TokenBucketState
  pub failure : TerminalResult

-- Bits times microseconds per byte and second.
abbrev pub bit_micros_per_byte : ℕ
bit_micros_per_byte = 8000000

-- `checkedMultiply` and then `checkedAdd`, or `none` where one of them returns false.
unfoldable pub refill_numerator : ℕ → ℕ → ℕ → Option ℕ
refill_numerator elapsed rate remainder = elim (checked_multiply elapsed rate) [
  | none ↦ none
  | some product ↦ checked_add product remainder
]

-- The decision as it stands before the gate is looked at.
abbrev pub initial_decision : Qer → TokenBucketState → ℕ → QerDecision
initial_decision qer current packet_bytes = record {
  applicable = true;
  qer_id = qer.id.value;
  gate = qer.gate;
  tokens_before = current.tokens_bytes;
  refill_bytes = 0;
  packet_charge_bytes = packet_bytes;
  tokens_after = current.tokens_bytes;
  allowed = false;
  outcome = text "";
}

-- `current.tokensBytes + std::min(room, refill)`
unfoldable pub fill : Qer → TokenBucketState → ℕ → ℕ
fill qer current refill =
    let room =
      if ltb current.tokens_bytes qer.burst_bytes
      then qer.burst_bytes - current.tokens_bytes
      else 0 in
    add_u64 current.tokens_bytes (min room refill)

-- The refill and the charge, for the numerator of the refill.
unfoldable pub charge : Qer → TokenBucketState → ℕ → ℕ → ℕ → QerEvaluation
charge qer current packet_bytes now numerator =
    let refill = numerator / bit_micros_per_byte in
    let filled = fill qer current refill in
    let decision = record (initial_decision qer current packet_bytes) { refill_bytes = refill } in
    let next : TokenBucketState = record {
      tokens_bytes = filled;
      last_refill_micros = now;
      remainder_bit_micros = numerator % bit_micros_per_byte;
    } in
    if ltb filled packet_bytes
    then record {
      decision = record decision { tokens_after = filled; outcome = text "RATE_LIMITED" };
      next = next;
      failure = rate_limited;
    }
    else record {
      decision = record decision {
        tokens_after = filled - packet_bytes;
        allowed = true;
        outcome = text "ALLOW";
      };
      next = record next { tokens_bytes = filled - packet_bytes };
      failure = rate_limited;
    }

-- `evaluateQer`
unfoldable pub evaluate_qer : Qer → TokenBucketState → ℕ → ℕ → QerEvaluation
unfolding refill_numerator charge
evaluate_qer qer current packet_bytes now =
    let decision = initial_decision qer current packet_bytes in
    let elapsed = now - current.last_refill_micros in
    let arithmetic : QerEvaluation = record {
      decision = record decision { outcome = text "ARITHMETIC_ERROR" };
      next = current;
      failure = arithmetic_error;
    } in
    if is_closed qer.gate
    then record {
      decision = record decision { outcome = text "GATE_CLOSED" };
      next = current;
      failure = gate_closed;
    }
    else if ltb now current.last_refill_micros
    then arithmetic
    else elim (refill_numerator elapsed qer.rate_bits_per_second current.remainder_bit_micros) [
      | none ↦ arithmetic
      | some numerator ↦ charge qer current packet_bytes now numerator
    ]
