-- ===== src/Qer/Branches.antt =====
-- What evaluateQer (src/domain/qer.cpp) returns, branch by branch, in plain arithmetic.
use Prim.Native.Nat.{max}
use upfpolicyengine.Common.{
  subst, sym, ℕ, ◌+◌, ◌-◌, ◌*◌, ◌/◌, ◌%◌, ◌≤◌, ◌<◌, min, ◌≡◌, refl, ◌⊎◌, inl, inr, true, false,
  none, some, arith, Option, Bool-cases, ltb,
}
use upfpolicyengine.Types.{GateStatus, add_u64, closed, opened, u64_mod}
use upfpolicyengine.Types.Arithmetic.{Checked, checked_add-Checked, checked_multiply-Checked}
use upfpolicyengine.Rules.{Qer}
use upfpolicyengine.RuntimeState.{TokenBucketState}
use upfpolicyengine.Decision.{gate_closed, arithmetic_error, rate_limited}
use upfpolicyengine.Qer.{
  QerEvaluation, fill, bit_micros_per_byte, refill_numerator, charge, evaluate_qer,
}

-- The values that 64-bit fields can hold.
pub record IsRangedQer (qer : Qer) : Type 0 where
  pub rate : qer.rate_bits_per_second < u64_mod
  pub burst : qer.burst_bytes < u64_mod

pub record IsRangedBucket (b : TokenBucketState) : Type 0 where
  pub tokens : b.tokens_bytes < u64_mod
  pub last_refill : b.last_refill_micros < u64_mod
  pub remainder : b.remainder_bit_micros < bit_micros_per_byte

-- The two checked steps fail exactly where the sum leaves 64 bits.
pub refill_numerator-Checked :
    (elapsed rate remainder : ℕ)
    → rate < u64_mod
    → Checked (elapsed * rate + remainder) (refill_numerator elapsed rate remainder)
unfolding refill_numerator
refill_numerator-Checked elapsed rate remainder h =
    ground (
      arith,
      checked_multiply-Checked elapsed rate h,
      checked_add-Checked (elapsed * rate) remainder,
    )

-- The numerator of the refill, and the tokens that are there before the charge.
abbrev pub accrued : Qer → TokenBucketState → ℕ → ℕ
accrued qer b now = (now - b.last_refill_micros) * qer.rate_bits_per_second + b.remainder_bit_micros

abbrev pub available : Qer → TokenBucketState → ℕ → ℕ
available qer b now =
    min (b.tokens_bytes + accrued qer b now / bit_micros_per_byte)
      (max b.tokens_bytes qer.burst_bytes)

-- The bucket after a refill at `now` and a charge that leaves `tokens`.
abbrev pub refilled : Qer → TokenBucketState → ℕ → ℕ → TokenBucketState
refilled qer b now tokens = record {
  tokens_bytes = tokens;
  last_refill_micros = now;
  remainder_bit_micros = accrued qer b now % bit_micros_per_byte;
}

-- A refusal that leaves the bucket alone.
abbrev pub Untouched : TokenBucketState → QerEvaluation → Type 0
Untouched b e = (e.decision.allowed ≡ false) × (e.next ≡ b)

-- The refill can be computed.
abbrev pub Accrues : Qer → TokenBucketState → ℕ → Type 0
Accrues qer b now = (b.last_refill_micros ≤ now) × (accrued qer b now < u64_mod)

pub data Outcome (qer : Qer) (b : TokenBucketState) (bytes now : ℕ) (e : QerEvaluation)
    : Type 0 where
  gate : qer.gate ≡ closed → e.failure ≡ gate_closed → Untouched b e → Outcome qer b bytes now e
  clock :
      qer.gate ≡ opened
      → now < b.last_refill_micros
      → e.failure ≡ arithmetic_error
      → Untouched b e
      → Outcome qer b bytes now e
  overflow :
      qer.gate ≡ opened
      → b.last_refill_micros ≤ now
      → u64_mod ≤ accrued qer b now
      → e.failure ≡ arithmetic_error
      → Untouched b e
      → Outcome qer b bytes now e
  limited :
      qer.gate ≡ opened
      → Accrues qer b now
      → available qer b now < bytes
      → e.failure ≡ rate_limited
      → e.decision.allowed ≡ false
      → e.next ≡ refilled qer b now (available qer b now)
      → Outcome qer b bytes now e
  allowed :
      qer.gate ≡ opened
      → Accrues qer b now
      → bytes ≤ available qer b now
      → e.decision.allowed ≡ true
      → e.next ≡ refilled qer b now (available qer b now - bytes)
      → Outcome qer b bytes now e

Gate-cases : (g : GateStatus) → (g ≡ opened) ⊎ (g ≡ closed)
Gate-cases opened = inl refl
Gate-cases closed = inr refl

module _ (qer : Qer) (b : TokenBucketState) (rq : IsRangedQer qer) (rb : IsRangedBucket b) where
  -- The bucket is filled up to the burst, and keeps what it has above it.
  pub fill_lem :
      (refill : ℕ)
      → fill qer b refill ≡ min (b.tokens_bytes + refill) (max b.tokens_bytes qer.burst_bytes)
  unfolding fill add_u64
  fill_lem refill = elim (Bool-cases (ltb b.tokens_bytes qer.burst_bytes)) [
    | inl e ↦ rw e (ground arith)
    | inr e ↦ rw e (ground arith)
  ]

  module _ (bytes now : ℕ) where
    abbrev Goal : Type 0
    Goal = Outcome qer b bytes now (evaluate_qer qer b bytes now)

    -- The charge, by whether the tokens suffice.
    charge-Outcome :
        qer.gate ≡ opened
        → Accrues qer b now
        → Outcome qer b bytes now (charge qer b bytes now (accrued qer b now))
    unfolding charge
    charge-Outcome open_gate accrues =
        let filled = fill_lem (accrued qer b now / bit_micros_per_byte) in
        elim (Bool-cases (ltb (available qer b now) bytes)) [
          | inl short ↦
              limited open_gate accrues (ground arith) (rw (filled, charge, short))
                (rw (filled, charge, short)) (rw (filled, charge, short))
          | inr enough ↦
              allowed open_gate accrues (ground arith) (rw (filled, charge, enough))
                (rw (filled, charge, enough))
        ]

    -- Behind the gate and the clock, by whether the numerator can be computed.
    numerator-Outcome :
        (o : Option ℕ)
        → refill_numerator
            (now - b.last_refill_micros)
            qer.rate_bits_per_second
            b.remainder_bit_micros
          ≡ o
        → qer.gate ≡ opened
        → b.last_refill_micros ≤ now
        → Goal
    unfolding evaluate_qer
    numerator-Outcome none e is_open later =
        let checked =
          refill_numerator-Checked (now - b.last_refill_micros) qer.rate_bits_per_second
            b.remainder_bit_micros rq.rate in
        overflow is_open later (ground arith) (ground arith) (ground arith, ground arith)
    numerator-Outcome (some n) e is_open later =
        let checked =
          refill_numerator-Checked (now - b.last_refill_micros) qer.rate_bits_per_second
            b.remainder_bit_micros rq.rate in
        let exact : n ≡ accrued qer b now = ground arith in
        let charged : evaluate_qer qer b bytes now ≡ charge qer b bytes now (accrued qer b now) =
          ground arith in
        subst (Outcome qer b bytes now) (sym charged) (charge-Outcome is_open (later, ground arith))

    -- For a QER and a bucket whose values are in range, an evaluation is one of the five outcomes: the
    -- gate, an early clock, an overflow, too few tokens, or a packet that is let through and charged.
    pub evaluate_qer-Outcome : Outcome qer b bytes now (evaluate_qer qer b bytes now)
    unfolding evaluate_qer
    evaluate_qer-Outcome = elim (Gate-cases qer.gate) [
      | inr shut ↦ gate shut (ground arith) (ground arith, ground arith)
      | inl is_open ↦ elim (Bool-cases (ltb now b.last_refill_micros)) [
        | inl early ↦ clock is_open (ground arith) (ground arith) (ground arith, ground arith)
        | inr later ↦ numerator-Outcome _ refl is_open (ground arith)
      ]
    ]
