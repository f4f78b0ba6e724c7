-- ===== src/Decision.antt =====
-- include/upf/domain/decision.hpp, src/domain/decision.cpp: the record of what happened to a packet.
use upfpolicyengine.Common.{ℕ, Bool, false, Option, none, List}
use upfpolicyengine.Common.Text.{Text, text}
use upfpolicyengine.Types.{Interface, n6, GateStatus, opened, FarAction, drop}
use upfpolicyengine.Packet.{TunnelMetadata, Packet}

pub data TerminalResult : Type 0 where
  forwarded_to_n3 forwarded_to_n6 far_dropped no_match malformed_packet : TerminalResult
  gate_closed rate_limited packet_queue_full shutdown_deadline : TerminalResult
  arithmetic_error capacity_error : TerminalResult

pub record CriterionResult : Type 0 where
  pub name : Text
  pub applicable : Bool
  pub matched : Bool
  pub actual : Text
  pub expected : Text

pub record MatchCandidate : Type 0 where
  pub pdr_id : ℕ
  pub precedence : ℕ
  pub matched : Bool
  pub criteria : List CriterionResult

pub record QerDecision : Type 0 where
  pub applicable : Bool
  pub qer_id : ℕ
  pub gate : GateStatus
  pub tokens_before : ℕ
  pub refill_bytes : ℕ
  pub packet_charge_bytes : ℕ
  pub tokens_after : ℕ
  pub allowed : Bool
  pub outcome : Text

pub record FarDecision : Type 0 where
  pub applicable : Bool
  pub far_id : ℕ
  pub action : FarAction
  pub destination : Interface
  pub before : Option TunnelMetadata
  pub after : Option TunnelMetadata

pub record UrrDecision : Type 0 where
  pub applicable : Bool
  pub urr_id : ℕ
  pub counted : Bool
  pub packets_before : ℕ
  pub packets_after : ℕ
  pub bytes_before : ℕ
  pub bytes_after : ℕ
  pub threshold_reached : Bool
  pub report_id : Text

-- `sinkPresent` with `sink`, and `transformedPresent` with `transformedPacket`, are options here:
-- where the flag is false the source leaves the value at its default and nothing reads it.
pub record PacketDecision : Type 0 where
  pub run_id : Text
  pub scenario_id : Text
  pub packet_id : Text
  pub session_id : Text
  pub arrival_time_micros : ℕ
  pub ingress : Interface
  pub ruleset_version : ℕ
  pub update_id : Text
  pub candidates : List MatchCandidate
  pub selected_pdr_id : ℕ
  pub qer : QerDecision
  pub far : FarDecision
  pub urr : UrrDecision
  pub terminal_result : TerminalResult
  pub sink : Option Interface
  pub transformed_packet : Option Packet
  pub observability_degraded : Bool

-- The default constructors.
abbrev pub default_qer_decision : QerDecision
default_qer_decision = record {
  applicable = false;
  qer_id = 0;
  gate = opened;
  tokens_before = 0;
  refill_bytes = 0;
  packet_charge_bytes = 0;
  tokens_after = 0;
  allowed = false;
  outcome = text "";
}

abbrev pub default_far_decision : FarDecision
default_far_decision = record {
  applicable = false;
  far_id = 0;
  action = drop;
  destination = n6;
  before = none;
  after = none;
}

abbrev pub default_urr_decision : UrrDecision
default_urr_decision = record {
  applicable = false;
  urr_id = 0;
  counted = false;
  packets_before = 0;
  packets_after = 0;
  bytes_before = 0;
  bytes_after = 0;
  threshold_reached = false;
  report_id = text "";
}

-- `terminalResultName`
unfoldable pub terminal_result_name : TerminalResult → Text
terminal_result_name forwarded_to_n3 = text "FORWARDED_TO_N3"
terminal_result_name forwarded_to_n6 = text "FORWARDED_TO_N6"
terminal_result_name far_dropped = text "FAR_DROPPED"
terminal_result_name no_match = text "NO_MATCH"
terminal_result_name malformed_packet = text "MALFORMED_PACKET"
terminal_result_name gate_closed = text "GATE_CLOSED"
terminal_result_name rate_limited = text "RATE_LIMITED"
terminal_result_name packet_queue_full = text "PACKET_QUEUE_FULL"
terminal_result_name shutdown_deadline = text "SHUTDOWN_DEADLINE"
terminal_result_name arithmetic_error = text "ARITHMETIC_ERROR"
terminal_result_name capacity_error = text "CAPACITY_ERROR"
