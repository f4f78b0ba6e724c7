-- ===== src/Far.antt =====
-- src/domain/far.cpp: forwarding or dropping, and the change of the tunnel.
pub mod Branches
use upfpolicyengine.Common.{
  Bool, true, false, not, ◌&&◌, Option, none, some, ◌==◌, if◌then◌else◌, has_value,
}
use upfpolicyengine.Types.{
  Interface, n3, n6, Interface_Eq, is_drop, is_tunnel_none, is_remove, is_add,
}
use upfpolicyengine.Packet.{Packet}
use upfpolicyengine.Rules.{Far}

pub record FarEvaluation : Type 0 where
  pub valid : Bool
  pub forwarded : Bool
  pub destination : Interface
  pub packet : Packet

-- `evaluateFar`
unfoldable pub evaluate_far : Far → Packet → FarEvaluation
evaluate_far far packet =
    let unset : FarEvaluation = record {
      valid = false;
      forwarded = false;
      destination = n6;
      packet = packet;
    } in
    if is_drop far.action
    then record unset { valid = not (has_value far.destination) && is_tunnel_none far.operation }
    else elim far.destination [
      | none ↦ unset
      | some destination ↦
          if packet.ingress == n3 && destination == n6 && is_remove far.operation
          then record {
            valid = true;
            forwarded = true;
            destination = destination;
            packet = record packet { tunnel = none };
          }
          else if packet.ingress == n6
              && destination == n3
              && is_add far.operation
              && has_value far.tunnel
          then record {
            valid = true;
            forwarded = true;
            destination = destination;
            packet = record packet { tunnel = far.tunnel };
          }
          else record unset { destination = destination }
    ]
