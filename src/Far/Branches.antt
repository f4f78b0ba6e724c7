-- ===== src/Far/Branches.antt =====
-- What evaluateFar (src/domain/far.cpp) forwards, and that it changes nothing but the tunnel.
use upfpolicyengine.Common.{true, none, some, ◌≡◌, refl, ◌⊎◌, inl, inr, arith, Option-cases, not}
use upfpolicyengine.Types.{Interface, n3, n6, forward, add, remove, is_drop, success}
use upfpolicyengine.Packet.{Packet, TunnelMetadata}
use upfpolicyengine.Rules.{Far}
use upfpolicyengine.Validation.{validate_far}
use upfpolicyengine.Far.{FarEvaluation, evaluate_far}

-- The two ways through: up with the tunnel removed, down with the FAR's tunnel added.
abbrev pub Uplink : Far → Packet → Type 0
Uplink far packet =
    (far.action ≡ forward)
    × (packet.ingress ≡ n3)
    × (far.destination ≡ some n6)
    × (far.operation ≡ remove)

abbrev pub Downlink : Far → Packet → TunnelMetadata → Type 0
Downlink far packet t =
    (far.action ≡ forward)
    × (packet.ingress ≡ n6)
    × (far.destination ≡ some n3)
    × (far.operation ≡ add)
    × (far.tunnel ≡ some t)

-- What a forwarded packet has become.
pub data Forwards (far : Far) (packet : Packet) (e : FarEvaluation) : Type 0 where
  up :
      Uplink far packet
      → e.destination ≡ n6
      → e.packet ≡ record packet { tunnel = none }
      → Forwards far packet e
  down :
      (t : TunnelMetadata)
      → Downlink far packet t
      → e.destination ≡ n3
      → e.packet ≡ record packet { tunnel = some t }
      → Forwards far packet e

Interface-cases : (i : Interface) → (i ≡ n3) ⊎ (i ≡ n6)
Interface-cases n3 = inl refl
Interface-cases n6 = inr refl

-- A packet that is forwarded goes from N3 to N6 with its tunnel removed, by a FAR that removes, or
-- from N6 to N3 with the FAR's tunnel, by a FAR that adds it; nothing else of it changes.
pub evaluate_far-Forwards :
    (far : Far) (packet : Packet)
    → (evaluate_far far packet).forwarded ≡ true
    → Forwards far packet (evaluate_far far packet)
unfolding evaluate_far
evaluate_far-Forwards far packet h = elim (Interface-cases packet.ingress) [
  | inl e ↦ up (ground arith) (ground arith) (ground arith)
  | inr e ↦ elim (Option-cases far.tunnel) [
    | inl missing ↦ absurd (ground arith)
    | inr (t, found) ↦ down t (ground arith) (ground arith) (ground arith)
  ]
]

-- And in each of them it does.
pub evaluate_far_up :
    (far : Far) (packet : Packet) → Uplink far packet → (evaluate_far far packet).forwarded ≡ true
unfolding evaluate_far
evaluate_far_up far packet h = ground arith

pub evaluate_far_down :
    (far : Far) (packet : Packet) (t : TunnelMetadata)
    → Downlink far packet t
    → (evaluate_far far packet).forwarded ≡ true
unfolding evaluate_far
evaluate_far_down far packet t h = ground arith

-- A valid evaluation forwards or drops, by the action.
pub evaluate_far_action :
    (far : Far) (packet : Packet)
    → (evaluate_far far packet).valid ≡ true
    → (evaluate_far far packet).forwarded ≡ not (is_drop far.action)
unfolding evaluate_far
evaluate_far_action far packet h = ground arith

-- What validation accepts of a FAR and an interface is valid for each packet of that interface.
pub validate_far-valid :
    (far : Far) (packet : Packet)
    → validate_far packet.ingress far ≡ success tt
    → (evaluate_far far packet).valid ≡ true
unfolding evaluate_far validate_far
validate_far-valid far packet h = ground arith
