-- ===== src/Ports/Laws.antt =====
-- The simulated clock never goes back, and the two bounded sinks keep to their capacity, in order
-- (src/adapters/{simulated_clock,bounded_event_sink,in_memory_packet_sink}.cpp).
use upfpolicyengine.Common.{
  ℕ, ◌+◌, ◌-◌, ◌≤◌, ◌≡◌, refl, List, [], ◌∷◌, arith, leb, length, length-push_back, push_back,
  if◌then◌else◌, Bool-cases, inl, inr, min,
}
use upfpolicyengine.Common.Text.{Text}
use upfpolicyengine.Types.{saturating_increment, u64_max}
use upfpolicyengine.Ports.{SimulatedClock, advance_to, BoundedEventSink, emit}

-- All the events in turn.
unfoldable pub emit_all : BoundedEventSink → List Text → BoundedEventSink
emit_all s [] = s
emit_all s (e ∷ es) = emit_all (emit s e).0 es

-- The clock after all the advances in turn.
unfoldable pub advance_all : SimulatedClock → List ℕ → SimulatedClock
advance_all c [] = c
advance_all c (v ∷ vs) = advance_all (advance_to c v) vs

-- The latest of the times that a clock is given.
abbrev pub latest : ℕ → List ℕ → ℕ
latest now [] = now
latest now (v ∷ vs) = latest (if leb now v then v else now) vs

-- After any advances the clock shows the latest time that it was given, or had.
pub advance_all-latest :
    (c : SimulatedClock) (vs : List ℕ) → (advance_all c vs).now ≡ latest c.now vs
unfolding advance_all advance_to
advance_all-latest c [] = refl
advance_all-latest c (v ∷ vs) = elim (Bool-cases (leb c.now v)) [
  | inl e ↦ rw (e, advance_all, advance_to) (advance_all-latest (record { now = v }) vs)
  | inr e ↦ rw (e, advance_all, advance_to) (advance_all-latest c vs)
]

-- From a sink within its capacity, any events leave it within its capacity and as full as they can
-- make it. Each event that it has no room for is counted as dropped, up to the largest 64-bit
-- number.
pub emit_all-Bounded :
    (s : BoundedEventSink) (es : List Text)
    → length s.events ≤ s.capacity
    → s.dropped ≤ u64_max
    → let total = length s.events + length es in
      (length (emit_all s es).events ≡ min s.capacity total)
      × ((emit_all s es).dropped ≡ min u64_max (s.dropped + (total - s.capacity)))
unfolding emit_all emit saturating_increment
emit_all-Bounded s [] h small = ground arith
emit_all-Bounded s (e ∷ es) h small = elim (Bool-cases (leb s.capacity (length s.events))) [
  | inl full ↦
      let rest =
        emit_all-Bounded (record s { dropped = saturating_increment s.dropped }) es h
          (ground arith) in
      rw (full, emit_all, emit) (ground (arith, rest.0), ground (arith, rest.1))
  | inr room ↦
      let pushed = length-push_back s.events e in
      let rest =
        emit_all-Bounded (record s { events = push_back s.events e }) es (ground (arith, pushed))
          small in
      rw (room, emit_all, emit) (ground (arith, rest.0, pushed), ground (arith, rest.1, pushed))
]
