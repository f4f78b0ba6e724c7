-- ===== src/Ports.antt =====
-- The small ports and their adapters: include/upf/ports/{clock,event_sink,packet_sink}.hpp and
-- src/adapters/{simulated_clock,bounded_event_sink,in_memory_packet_sink}.cpp.
pub mod Laws
use upfpolicyengine.Common.{ℕ, Bool, true, false, List, [], leb, length, push_back, if◌then◌else◌}
use upfpolicyengine.Common.Text.{Text}
use upfpolicyengine.Types.{saturating_increment}
use upfpolicyengine.Packet.{Packet}

pub record SimulatedClock : Type 0 where
  pub now : ℕ

abbrev pub new_clock : SimulatedClock
new_clock = record { now = 0 }

-- `SimulatedClock::advanceTo`
unfoldable pub advance_to : SimulatedClock → ℕ → SimulatedClock
advance_to c value = if leb c.now value then record { now = value } else c

pub record BoundedEventSink : Type 0 where
  pub capacity : ℕ
  pub dropped : ℕ
  pub events : List Text

abbrev pub new_event_sink : ℕ → BoundedEventSink
new_event_sink capacity = record { capacity = capacity; dropped = 0; events = [] }

-- `BoundedEventSink::emit`
unfoldable pub emit : BoundedEventSink → Text → BoundedEventSink × Bool
emit s event =
    if leb s.capacity (length s.events)
    then (record s { dropped = saturating_increment s.dropped }, false)
    else (record s { events = push_back s.events event }, true)

pub record InMemoryPacketSink : Type 0 where
  pub capacity : ℕ
  pub packets : List Packet

abbrev pub new_packet_sink : ℕ → InMemoryPacketSink
new_packet_sink capacity = record { capacity = capacity; packets = [] }

-- `InMemoryPacketSink::accept`
unfoldable pub accept : InMemoryPacketSink → Packet → InMemoryPacketSink × Bool
accept s packet =
    if leb s.capacity (length s.packets)
    then (s, false)
    else (record s { packets = push_back s.packets packet }, true)
