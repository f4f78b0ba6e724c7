-- ===== src/Scheduler.antt =====
-- include/upf/application/scheduler.hpp, src/application/scheduler.cpp: three bounded queues, served
-- round-robin.
pub mod Bounds
pub mod Service
use upfpolicyengine.Common.{
  ℕ, ◌+◌, Bool, true, false, List, [], ◌∷◌, ◌++◌, Option, none, some, leb, length, push_back,
  if◌then◌else◌, map,
}
use upfpolicyengine.Common.Text.{Text}
use upfpolicyengine.Types.{CapacityLimits}

pub data WorkKind : Type 0 where
  control_work packet_work reconciliation_work : WorkKind

pub record ScheduledItem : Type 0 where
  pub kind : WorkKind
  pub value : Text

pub record Scheduler : Type 0 where
  pub limits : CapacityLimits
  pub control : List Text
  pub packet : List Text
  pub reconciliation : List Text
  pub accepting : Bool

-- The constructor.
abbrev pub new_scheduler : CapacityLimits → Scheduler
new_scheduler limits = record {
  limits = limits;
  control = [];
  packet = [];
  reconciliation = [];
  accepting = true;
}

-- `Scheduler::enqueue`: the queue afterwards, or `none` where it returns false.
unfoldable pub enqueue : List Text → ℕ → Text → Option (List Text)
enqueue queue capacity value =
    if leb capacity (length queue) then none else some (push_back queue value)

unfoldable pub enqueue_control : Scheduler → Text → Scheduler × Bool
unfolding enqueue
enqueue_control s value =
    if s.accepting
    then elim (enqueue s.control s.limits.control_queue value) [
      | none ↦ (s, false)
      | some queue ↦ (record s { control = queue }, true)
    ]
    else (s, false)

unfoldable pub enqueue_packet : Scheduler → Text → Scheduler × Bool
unfolding enqueue
enqueue_packet s value =
    if s.accepting
    then elim (enqueue s.packet s.limits.packet_queue value) [
      | none ↦ (s, false)
      | some queue ↦ (record s { packet = queue }, true)
    ]
    else (s, false)

unfoldable pub enqueue_reconciliation : Scheduler → Text → Scheduler × Bool
unfolding enqueue
enqueue_reconciliation s value =
    if s.accepting
    then elim (enqueue s.reconciliation s.limits.reconciliation_queue value) [
      | none ↦ (s, false)
      | some queue ↦ (record s { reconciliation = queue }, true)
    ]
    else (s, false)

-- `if (!queue.empty()) { result.push_back(ScheduledItem(kind, queue.front())); queue.pop_front(); }`
unfoldable pub take_front :
    WorkKind → List Text → List ScheduledItem → List Text × List ScheduledItem
take_front kind [] result = ([], result)
take_front kind (value ∷ queue) result =
    (queue, push_back result (record { kind = kind; value = value }))

-- `Scheduler::takeCycle`
unfoldable pub take_cycle : Scheduler → Scheduler × List ScheduledItem
unfolding take_front
take_cycle s =
    let (control, result) = take_front control_work s.control [] in
    let (packet, result') = take_front packet_work s.packet result in
    let (reconciliation, result'') = take_front reconciliation_work s.reconciliation result' in
    (record s { control = control; packet = packet; reconciliation = reconciliation }, result'')

-- `Scheduler::pending`
unfoldable pub pending : Scheduler → ℕ
pending s = length s.control + length s.packet + length s.reconciliation

-- `Scheduler::stopAdmission`
unfoldable pub stop_admission : Scheduler → Scheduler
stop_admission s = record s { accepting = false }

-- One `while` of `classifyRemainder`, to the end of its queue.
unfoldable pub drain : WorkKind → List Text → List ScheduledItem → List ScheduledItem
drain kind [] result = result
drain kind (value ∷ queue) result =
    drain kind queue (push_back result (record { kind = kind; value = value }))

-- `Scheduler::classifyRemainder`
unfoldable pub classify_remainder : Scheduler → Scheduler × List ScheduledItem
unfolding drain
classify_remainder s = (
  record s { control = []; packet = []; reconciliation = [] },
  drain reconciliation_work s.reconciliation
      (drain packet_work s.packet (drain control_work s.control [])),
)
