-- ===== src/Qer/Conformance.antt =====
-- evaluateQer (src/domain/qer.cpp) as a policer: what a history of packets can get through.
use upfpolicyengine.Common.{
  ap, ℕ, ◌+◌, ◌-◌, ◌*◌, ◌≤◌, ◌<◌, ◌≡◌, List, [], ◌∷◌, arith, All, if◌then◌else◌,
}
use upfpolicyengine.Types.{u64_mod}
use upfpolicyengine.Rules.{Qer}
use upfpolicyengine.RuntimeState.{TokenBucketState}
use upfpolicyengine.Qer.{bit_micros_per_byte, evaluate_qer}
use upfpolicyengine.Qer.Branches.{
  IsRangedQer, IsRangedBucket, accrued, available, refilled, Outcome, gate, clock, overflow,
  limited, allowed, evaluate_qer-Outcome,
}

-- A packet's bytes and its time.
pub record Arrival : Type 0 where
  pub bytes : ℕ
  pub now : ℕ

-- The bytes that one evaluation lets through, and the bucket after it. A refusal other than by the
-- rate leaves the bucket as it was, so this is the bucket that the pipeline goes on with.
abbrev pub sent : Qer → TokenBucketState → Arrival → ℕ
sent qer b a = if (evaluate_qer qer b a.bytes a.now).decision.allowed then a.bytes else 0

abbrev pub next_bucket : Qer → TokenBucketState → Arrival → TokenBucketState
next_bucket qer b a = (evaluate_qer qer b a.bytes a.now).next

-- The bytes that a history lets through, and the bucket at its end.
unfoldable pub serve : Qer → TokenBucketState → List Arrival → ℕ × TokenBucketState
serve qer b [] = (0, b)
serve qer b (a ∷ later) =
    let (total, last) = serve qer (next_bucket qer b a) later in (sent qer b a + total, last)

-- What is in a bucket, in bit-microseconds, with the fraction of a byte.
abbrev pub worth : TokenBucketState → ℕ
worth b = bit_micros_per_byte * b.tokens_bytes + b.remainder_bit_micros

module _ (qer : Qer) where
  -- Time is the only source of tokens: `out` bytes have been sent between the two buckets.
  abbrev Conserves : TokenBucketState → ℕ → TokenBucketState → Type 0
  Conserves b out b' =
      bit_micros_per_byte * out + worth b' + qer.rate_bits_per_second * b.last_refill_micros
      ≤ worth b + qer.rate_bits_per_second * b'.last_refill_micros

  -- A refill is paid for by the time since the last one.
  accrued_lem :
      (b : TokenBucketState) (now : ℕ)
      → b.last_refill_micros ≤ now
      → accrued qer b now + qer.rate_bits_per_second * b.last_refill_micros
        ≡ qer.rate_bits_per_second * now + b.remainder_bit_micros
  accrued_lem b now later =
      let elapsed : now - b.last_refill_micros + b.last_refill_micros ≡ now = omega arith in
      omega (arith, ap (λ (t : ℕ). t * qer.rate_bits_per_second) elapsed)

  refilled-Conserves :
      (b : TokenBucketState) (now out : ℕ)
      → b.last_refill_micros ≤ now
      → out ≤ available qer b now
      → Conserves b out (refilled qer b now (available qer b now - out))
  refilled-Conserves b now out later enough = omega (arith, accrued_lem b now later)

  module _ (rq : IsRangedQer qer) (b : TokenBucketState) (a : Arrival) (rb : IsRangedBucket b) where
    abbrev Step : Type 0
    Step = Outcome qer b a.bytes a.now (evaluate_qer qer b a.bytes a.now)

    step-IsRanged : a.now < u64_mod → Step → IsRangedBucket (next_bucket qer b a)
    step-IsRanged h (gate _ _ (_, same)) = rw same rb
    step-IsRanged h (clock _ _ _ (_, same)) = rw same rb
    step-IsRanged h (overflow _ _ _ _ (_, same)) = rw same rb
    step-IsRanged h (limited _ _ _ _ _ e) = rw e (omega (arith, rq.burst))
    step-IsRanged h (allowed _ _ _ _ e) = rw e (omega (arith, rq.burst))

    step-Conserves : Step → Conserves b (sent qer b a) (next_bucket qer b a)
    step-Conserves (gate _ _ (stopped, same)) = rw (stopped, same) (omega arith)
    step-Conserves (clock _ _ _ (stopped, same)) = rw (stopped, same) (omega arith)
    step-Conserves (overflow _ _ _ _ (stopped, same)) = rw (stopped, same) (omega arith)
    step-Conserves (limited _ accrues _ _ stopped e) =
        rw (stopped, e) (omega (arith, refilled-Conserves b a.now 0 accrues.0))
    step-Conserves (allowed _ accrues enough passed e) =
        rw (passed, e) (refilled-Conserves b a.now a.bytes accrues.0 enough)

  -- Whatever the packets and their times, the bytes let through are paid for by the tokens at the
  -- beginning and the rate over the time between the first and the last refill.
  pub serve-Conserves :
      (b : TokenBucketState) (arrivals : List Arrival)
      → IsRangedQer qer
      → IsRangedBucket b
      → All (λ a. a.now < u64_mod) arrivals
      → Conserves b (serve qer b arrivals).0 (serve qer b arrivals).1
  unfolding serve
  serve-Conserves b [] rq rb times = omega arith
  serve-Conserves b (a ∷ later) rq rb times =
      let step = evaluate_qer-Outcome qer b rq rb a.bytes a.now in
      let rest =
        serve-Conserves (next_bucket qer b a) later rq (step-IsRanged rq b a rb times.0 step)
          times.1 in
      omega (arith, step-Conserves rq b a rb step, rest)

  -- For a QER, a bucket and packet times in range, with no more tokens at the beginning than the burst:
  -- what is let through is at most the burst, the fraction of a byte left over, and the rate over the
  -- time from the first refill to any time from the last one on.
  pub serve-le-burst :
      (b : TokenBucketState) (arrivals : List Arrival) (end : ℕ)
      → IsRangedQer qer
      → IsRangedBucket b
      → All (λ a. a.now < u64_mod) arrivals
      → b.tokens_bytes ≤ qer.burst_bytes
      → (serve qer b arrivals).1.last_refill_micros ≤ end
      → bit_micros_per_byte * (serve qer b arrivals).0
          + qer.rate_bits_per_second * b.last_refill_micros
        ≤ bit_micros_per_byte * qer.burst_bytes
          + b.remainder_bit_micros
          + qer.rate_bits_per_second * end
  serve-le-burst b arrivals end rq rb times full last =
      let last_paid = ap (λ (t : ℕ). qer.rate_bits_per_second * t) (split last) in
      omega (arith, serve-Conserves b arrivals rq rb times, last_paid)
    where
      split : {m n : ℕ} → m ≤ n → n ≡ m + (n - m)
      split h = omega arith
