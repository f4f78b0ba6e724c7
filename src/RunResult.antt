-- ===== src/RunResult.antt =====
-- include/upf/application/scenario_runner.hpp: the result of a run.
use upfpolicyengine.Common.{ℕ, Bool, false, List, []}
use upfpolicyengine.Common.Text.{Text, text}
use upfpolicyengine.Types.{ConvergenceStatus, empty}
use upfpolicyengine.Packet.{Packet}
use upfpolicyengine.Decision.{PacketDecision}

pub record RunResult : Type 0 where
  pub run_id : Text
  pub scenario_id : Text
  pub decisions : List PacketDecision
  pub usage_reports : List Text
  pub n3_sink : List Packet
  pub n6_sink : List Packet
  pub intended_version : ℕ
  pub applied_version : ℕ
  pub active_version : ℕ
  pub convergence : ConvergenceStatus
  pub observability_degraded : Bool
  pub dropped_events : ℕ

-- The constructor.
abbrev pub default_result : RunResult
default_result = record {
  run_id = text "";
  scenario_id = text "";
  decisions = [];
  usage_reports = [];
  n3_sink = [];
  n6_sink = [];
  intended_version = 0;
  applied_version = 0;
  active_version = 0;
  convergence = empty;
  observability_degraded = false;
  dropped_events = 0;
}

-- The line that main.cpp and both renderings print.
abbrev pub disclaimer : Text
disclaimer =
    text
      "Simulation-only educational demo; not a conformant or production PFCP, GTP-U, or UPF implementation."
