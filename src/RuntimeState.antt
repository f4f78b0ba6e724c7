-- ===== src/RuntimeState.antt =====
-- include/upf/domain/runtime_state.hpp: what a rule keeps between packets.
use upfpolicyengine.Common.{ℕ, Bool, false, []}
use upfpolicyengine.Common.Dict.{Dict}

pub record TokenBucketState : Type 0 where
  pub tokens_bytes : ℕ
  pub last_refill_micros : ℕ
  pub remainder_bit_micros : ℕ

pub record UsageCounterState : Type 0 where
  pub packets : ℕ
  pub payload_bytes : ℕ
  pub report_emitted : Bool

pub record RuntimeState : Type 0 where
  pub qers : Dict TokenBucketState
  pub urrs : Dict UsageCounterState
  pub qer_generations : Dict ℕ
  pub urr_generations : Dict ℕ

-- The default constructors.
abbrev pub default_bucket : TokenBucketState
default_bucket = record { tokens_bytes = 0; last_refill_micros = 0; remainder_bit_micros = 0 }

abbrev pub default_counter : UsageCounterState
default_counter = record { packets = 0; payload_bytes = 0; report_emitted = false }

abbrev pub default_runtime : RuntimeState
default_runtime = record { qers = []; urrs = []; qer_generations = []; urr_generations = [] }
