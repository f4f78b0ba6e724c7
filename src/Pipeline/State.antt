-- ===== src/Pipeline/State.antt =====
-- The pipeline's state, `retain`, `install`, `validPacket`, and the early returns of `process`.
use upfpolicyengine.Common.{
  ℕ, Bool, true, false, not, ◌||◌, Option, none, some, List, [], ltb, ◌==◌, length, push_back,
  if◌then◌else◌, has_value, present_and,
}
use upfpolicyengine.Common.Text.{Text, is_empty}
use upfpolicyengine.Types.{
  CapacityLimits, Result, success, failure, saturating_increment, n3, Interface_Eq,
}
use upfpolicyengine.Address.{family_eq}
use upfpolicyengine.Packet.{Packet, is_valid_tunnel}
use upfpolicyengine.Rules.{RuleSet}
use upfpolicyengine.Decision.{PacketDecision, terminal_result_name}
use upfpolicyengine.Validation.{validate_rule_set}
use upfpolicyengine.RuntimeState.{RuntimeState, default_runtime}
use upfpolicyengine.Migration.{install_runtime}

-- `rules` is the shared pointer to the immutable snapshot, `none` when it is null.
pub record Pipeline : Type 0 where
  pub limits : CapacityLimits
  pub rules : Option RuleSet
  pub runtime : RuntimeState
  pub n3_sink : List Packet
  pub n6_sink : List Packet
  pub decisions : List PacketDecision
  pub reports : List Text
  pub events : List Text
  pub dropped_events : ℕ

-- The constructor.
abbrev pub new_pipeline : CapacityLimits → Pipeline
new_pipeline limits = record {
  limits = limits;
  rules = none;
  runtime = default_runtime;
  n3_sink = [];
  n6_sink = [];
  decisions = [];
  reports = [];
  events = [];
  dropped_events = 0;
}

-- `PacketPipeline::retain`
unfoldable pub retain : Pipeline → PacketDecision → Pipeline × PacketDecision
retain p decision =
    if ltb (length p.events) p.limits.events
    then (
      record p {
        events = push_back p.events (terminal_result_name decision.terminal_result);
        decisions = push_back p.decisions decision;
      },
      decision,
    )
    else (let degraded = record decision { observability_degraded = true } in
        (
          record p {
            dropped_events = saturating_increment p.dropped_events;
            decisions = push_back p.decisions degraded;
          },
          degraded,
        ))

-- `PacketPipeline::install`
unfoldable pub install : Pipeline → RuleSet → Pipeline × Result (Unit {0})
install p rules = elim (validate_rule_set rules p.limits) [
  | failure error ↦ (p, failure error)
  | success _ ↦
      (record p { rules = some rules; runtime = install_runtime rules p.runtime }, success tt)
]

-- `PacketPipeline::validPacket`
unfoldable pub valid_packet : Packet → Bool
valid_packet packet =
    if is_empty packet.packet_id || is_empty packet.session_id
    then false
    else if not (family_eq packet.source_ip.family packet.destination_ip.family)
    then false
    else if packet.ingress == n3
    then present_and packet.tunnel is_valid_tunnel
    else not (has_value packet.tunnel)

-- How a part of `process` ends: it goes on with a value, it returns from `process`, or it
-- dereferences a null pointer, after which the source promises nothing.
pub data Flow {ℓ} (A : Type ℓ) : Type ℓ where
  go : A → Flow A
  exit : Pipeline → PacketDecision → Flow A
  fault : Flow A

infixl 5 ◌>>=◌
abbrev pub ◌>>=◌ {ℓ κ} : {A : Type ℓ} {B : Type κ} → Flow A → (A → Flow B) → Flow B
go a >>= f = f a
exit p d >>= f = exit p d
fault >>= f = fault

-- `return retain(decision);`
abbrev pub exit_retained {ℓ} : {A : Type ℓ} → Pipeline → PacketDecision → Flow A
exit_retained p decision = let (p', d) = retain p decision in exit p' d

-- `*pointer`
abbrev pub dereference {ℓ} : {A : Type ℓ} → Option A → Flow A
dereference none = fault
dereference (some a) = go a
