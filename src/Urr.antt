-- ===== src/Urr.antt =====
-- src/domain/urr.cpp: usage counters and the threshold report.
pub mod Branches
pub mod Reports
use upfpolicyengine.Common.{
  ℕ, Bool, true, false, not, ◌&&◌, Option, none, some, ◌++◌, leb, if◌then◌else◌,
}
use upfpolicyengine.Common.Text.{Text, text}
use upfpolicyengine.Common.Decimal.{decimal}
use upfpolicyengine.Types.{checked_add}
use upfpolicyengine.Rules.{Urr}
use upfpolicyengine.RuntimeState.{UsageCounterState}
use upfpolicyengine.Decision.{UrrDecision}

pub record UrrEvaluation : Type 0 where
  pub next : UsageCounterState
  pub decision : UrrDecision
  pub report_generated : Bool
  pub overflow : Bool

-- The report's identifier.
unfoldable pub report_id : Text → Urr → ℕ → Text
report_id session_id urr ruleset_version =
    session_id
    ++ (text "-urr-"
        ++ (decimal urr.id.value
            ++ (text "-g" ++ (decimal urr.generation ++ (text "-v" ++ decimal ruleset_version)))))

-- The decision as it stands before the counters are advanced.
abbrev pub initial_decision : Urr → UsageCounterState → UrrDecision
initial_decision urr current = record {
  applicable = true;
  urr_id = urr.id.value;
  counted = true;
  packets_before = current.packets;
  packets_after = 0;
  bytes_before = current.payload_bytes;
  bytes_after = 0;
  threshold_reached = false;
  report_id = text "";
}

-- The counters after both additions, or `none` where one of them overflows.
unfoldable pub advance : UsageCounterState → ℕ → Option UsageCounterState
advance current payload_bytes = elim (checked_add current.packets 1) [
  | none ↦ none
  | some packets ↦ elim (checked_add current.payload_bytes payload_bytes) [
    | none ↦ none
    | some bytes ↦ some (record current { packets = packets; payload_bytes = bytes })
  ]
]

-- `evaluateUrr`
unfoldable pub evaluate_urr : Urr → UsageCounterState → ℕ → Text → ℕ → UrrEvaluation
unfolding advance
evaluate_urr urr current payload_bytes session_id ruleset_version =
    let initial = initial_decision urr current in
    elim (advance current payload_bytes) [
      | none ↦ record {
        next = current;
        decision = initial;
        report_generated = false;
        overflow = true;
      }
      | some next ↦
          let decision = record initial {
            packets_after = next.packets;
            bytes_after = next.payload_bytes;
          } in
          if not current.report_emitted && leb urr.volume_threshold_bytes next.payload_bytes
          then record {
            next = record next { report_emitted = true };
            decision = record decision {
              report_id = report_id session_id urr ruleset_version;
              threshold_reached = true;
            };
            report_generated = true;
            overflow = false;
          }
          else record {
            next = next;
            decision = decision;
            report_generated = false;
            overflow = false;
          }
    ]
