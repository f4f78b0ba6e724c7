-- ===== src/Scheduler/Service.antt =====
-- What takeCycle and classifyRemainder (src/application/scheduler.cpp) hand out: each queue in its
-- order, one item of each queue in a cycle, and in the end all that is left.
use upfpolicyengine.Common.{
  min, ℕ, zero, suc, ◌+◌, ◌≡◌, refl, sym, ap, ◌∙◌, List, [], ◌∷◌, ◌++◌, map, arith, length,
  push_back, some, get_elem?, Any, here, there, some_inj,
}
use mathlib.Core.List.{append_assoc, append-nil}
use upfpolicyengine.Common.Text.{Text}
use upfpolicyengine.Scheduler.{
  Scheduler, ScheduledItem, WorkKind, control_work, packet_work, reconciliation_work, take_front,
  take_cycle, pending, drain, classify_remainder,
}

abbrev pub item : WorkKind → Text → ScheduledItem
item kind value = record { kind = kind; value = value }

drain-map :
    (kind : WorkKind) (queue : List Text) (result : List ScheduledItem)
    → drain kind queue result ≡ result ++ map (item kind) queue
unfolding drain
drain-map kind [] result = sym (append-nil result)
drain-map kind (v ∷ queue) result =
    drain-map kind queue (push_back result (item kind v))
    ∙ append_assoc result (item kind v ∷ []) (map (item kind) queue)

-- The remainder is all the items of the control queue, then those of the packet queue, then those
-- of the reconciliation queue, each in its order, and nothing is pending afterwards.
pub classify_remainder-map :
    (s : Scheduler)
    → ((classify_remainder s).1
        ≡ (map (item control_work) s.control ++ map (item packet_work) s.packet)
          ++ map (item reconciliation_work) s.reconciliation)
      × (pending (classify_remainder s).0 ≡ 0)
unfolding classify_remainder pending
classify_remainder-map s = (
  rw (
    drain-map control_work s.control [],
    drain-map packet_work s.packet (map (item control_work) s.control),
    drain-map reconciliation_work s.reconciliation
        (map (item control_work) s.control ++ map (item packet_work) s.packet),
  ),
  refl,
)

-- What a cycle takes, and what it leaves in the queues.
abbrev fronts : List Text → List Text → List Text → List ScheduledItem
fronts c p r =
    (take_front reconciliation_work r
      (take_front packet_work p (take_front control_work c []).1).1).1

rest_of :
    (kind : WorkKind) (queue : List Text) (items : List ScheduledItem) (n : ℕ)
    → get_elem? (take_front kind queue items).0 n ≡ get_elem? queue (suc n)
unfolding take_front
rest_of kind [] items n = refl
rest_of kind (v ∷ queue) items n = refl

pending_of :
    (c p r : List Text)
    → (length c + length p + length r
        ≡ length (fronts c p r)
          + (length (take_front control_work c []).0
              + length (take_front packet_work p (take_front control_work c []).1).0
              + length
                  (take_front reconciliation_work r
                    (take_front packet_work p (take_front control_work c []).1).1).0))
      × (length (fronts c p r) ≡ min 1 (length c) + min 1 (length p) + min 1 (length r))
unfolding take_front
pending_of [] [] [] = (omega arith, omega arith)
pending_of [] [] (d ∷ r) = (omega arith, omega arith)
pending_of [] (b ∷ p) [] = (omega arith, omega arith)
pending_of [] (b ∷ p) (d ∷ r) = (omega arith, omega arith)
pending_of (a ∷ c) [] [] = (omega arith, omega arith)
pending_of (a ∷ c) [] (d ∷ r) = (omega arith, omega arith)
pending_of (a ∷ c) (b ∷ p) [] = (omega arith, omega arith)
pending_of (a ∷ c) (b ∷ p) (d ∷ r) = (omega arith, omega arith)

-- A cycle takes its items off what is pending, and one item of each queue that is not empty.
pub take_cycle-pending :
    (s : Scheduler)
    → (pending s ≡ length (take_cycle s).1 + pending (take_cycle s).0)
      × (length (take_cycle s).1
          ≡ min 1 (length s.control) + min 1 (length s.packet) + min 1 (length s.reconciliation))
unfolding take_cycle take_front pending
take_cycle-pending s = pending_of s.control s.packet s.reconciliation

-- The scheduler after so many cycles.
unfoldable pub cycles : ℕ → Scheduler → Scheduler
cycles zero s = s
cycles (suc n) s = cycles n (take_cycle s).0

abbrev pub Taken : WorkKind → Text → List ScheduledItem → Type 0
Taken kind value items = Any (λ i. i ≡ item kind value) items

front_packet :
    (c p r : List Text) (value : Text)
    → get_elem? p 0 ≡ some value
    → Taken packet_work value (fronts c p r)
unfolding take_front
front_packet c [] r value e = cc
front_packet [] (v ∷ p) [] value e = here (ap (item packet_work) (some_inj e))
front_packet [] (v ∷ p) (d ∷ r) value e = here (ap (item packet_work) (some_inj e))
front_packet (a ∷ c) (v ∷ p) [] value e = there (here (ap (item packet_work) (some_inj e)))
front_packet (a ∷ c) (v ∷ p) (d ∷ r) value e = there (here (ap (item packet_work) (some_inj e)))

-- The packet at position `n` of its queue is taken in cycle `n` of consecutive cycles, counted from 0,
-- whatever the other queues hold.
pub take_cycle-Fair :
    (n : ℕ) (s : Scheduler) (value : Text)
    → get_elem? s.packet n ≡ some value
    → Taken packet_work value (take_cycle (cycles n s)).1
unfolding cycles take_cycle
take_cycle-Fair zero s value e = front_packet s.control s.packet s.reconciliation value e
take_cycle-Fair (suc n) s value e =
    take_cycle-Fair n (take_cycle s).0 value (rest_of packet_work s.packet _ n ∙ e)
