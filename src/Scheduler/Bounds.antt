-- ===== src/Scheduler/Bounds.antt =====
-- The queues of the scheduler (src/application/scheduler.cpp) stay within their limits.
use upfpolicyengine.Common.{◌≤◌, arith, length, length-push_back}
use upfpolicyengine.Common.Text.{Text}
use upfpolicyengine.Types.{CapacityLimits}
use upfpolicyengine.Scheduler.{
  Scheduler, new_scheduler, enqueue, enqueue_control, enqueue_packet, enqueue_reconciliation,
  take_front, take_cycle, stop_admission, classify_remainder,
}

-- One call of the scheduler.
pub data Step : Scheduler → Scheduler → Type 0 where
  control : (s : Scheduler) (value : Text) → Step s (enqueue_control s value).0
  packet : (s : Scheduler) (value : Text) → Step s (enqueue_packet s value).0
  reconciliation : (s : Scheduler) (value : Text) → Step s (enqueue_reconciliation s value).0
  cycle : (s : Scheduler) → Step s (take_cycle s).0
  stop : (s : Scheduler) → Step s (stop_admission s)
  classify : (s : Scheduler) → Step s (classify_remainder s).0

pub data Steps : Scheduler → Scheduler → Type 0 where
  done : {s : Scheduler} → Steps s s
  also : {s t u : Scheduler} → Steps s t → Step t u → Steps s u

pub record IsBounded (s : Scheduler) : Type 0 where
  pub control : length s.control ≤ s.limits.control_queue
  pub packet : length s.packet ≤ s.limits.packet_queue
  pub reconciliation : length s.reconciliation ≤ s.limits.reconciliation_queue

step-IsBounded : (s t : Scheduler) → Step s t → IsBounded s → IsBounded t
unfolding enqueue enqueue_control enqueue_packet enqueue_reconciliation take_cycle take_front
    stop_admission classify_remainder
step-IsBounded s _ (control _ value) h = record {
  control = ground (arith, h.control, length-push_back s.control value);
  packet = ground (arith, h.packet);
  reconciliation = ground (arith, h.reconciliation);
}
step-IsBounded s _ (packet _ value) h = record {
  control = ground (arith, h.control);
  packet = ground (arith, h.packet, length-push_back s.packet value);
  reconciliation = ground (arith, h.reconciliation);
}
step-IsBounded s _ (reconciliation _ value) h = record {
  control = ground (arith, h.control);
  packet = ground (arith, h.packet);
  reconciliation = ground (arith, h.reconciliation, length-push_back s.reconciliation value);
}
step-IsBounded s _ (cycle _) h = record {
  control = ground (arith, h.control);
  packet = ground (arith, h.packet);
  reconciliation = ground (arith, h.reconciliation);
}
step-IsBounded s _ (stop _) h = record {
  control = h.control;
  packet = h.packet;
  reconciliation = h.reconciliation;
}
step-IsBounded s _ (classify _) h = record {
  control = omega arith;
  packet = omega arith;
  reconciliation = omega arith;
}

-- Whatever is called in whatever order, no queue of a new scheduler exceeds its limit.
pub Steps-IsBounded :
    (limits : CapacityLimits) (s : Scheduler) → Steps (new_scheduler limits) s → IsBounded s
Steps-IsBounded limits s done = record {
  control = omega arith;
  packet = omega arith;
  reconciliation = omega arith;
}
Steps-IsBounded limits s (also {t = t} steps step) =
    step-IsBounded t s step (Steps-IsBounded limits t steps)
