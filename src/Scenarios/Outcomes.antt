-- ===== src/Scenarios/Outcomes.antt =====
-- What the built-in scenarios come to.
use upfpolicyengine.Common.{
  ℕ, ◌≡◌, refl, sym, subst, Bool, true, false, Option, none, some, List, [], ◌∷◌, ◌==◌, map, length,
  All, Bool-cases, inl, inr, if◌then◌else◌,
}
use upfpolicyengine.Common.Text.{Text, text, text_Eq, text_eq, text_eq_iff}
use upfpolicyengine.Types.{ConvergenceStatus, converged}
use upfpolicyengine.Address.{Inet}
use upfpolicyengine.Decision.{
  TerminalResult, forwarded_to_n3, forwarded_to_n6, rate_limited, packet_queue_full,
  shutdown_deadline,
}
use upfpolicyengine.RunResult.{RunResult}
use upfpolicyengine.Scenarios.Run.{
  run, play, conclude, decide, play_uplink, play_downlink, play_rate_limit, play_threshold,
  play_precedence, play_recovery, play_overload, play_unprocessed,
}
use upfpolicyengine.Pipeline.{
  process, process_flow, admit, select, apply_winner, apply_qer, apply_far, apply_urr, settle_qer,
  settle_urr, commit,
}
use upfpolicyengine.Pipeline.{retain, install, valid_packet}
use upfpolicyengine.Pipeline.{better, scan, sort_candidates}
use upfpolicyengine.Matcher.{evaluate_candidate}
use upfpolicyengine.Validation.{
  holds, unique_ids_from, unique_ids, ranges_overlap, optional_values_overlap, match_spaces_overlap,
  validate_far, validate_pdr, validate_disjoint, validate_pdrs, validate_rule_set,
}
use upfpolicyengine.Rules.{find_rule, find_far, find_qer, find_urr}
use upfpolicyengine.Address.{memory_eq, leading_mask, contains, contains_port}
use upfpolicyengine.Packet.{is_valid_tunnel}
use upfpolicyengine.Common.Dict.{index, lookup, insert}
use upfpolicyengine.Migration.{install_runtime}
use upfpolicyengine.Qer.{refill_numerator, fill, charge, evaluate_qer}
use upfpolicyengine.Far.{evaluate_far}
use upfpolicyengine.Urr.{advance, evaluate_urr, report_id}
use upfpolicyengine.Types.{checked_add, checked_multiply, add_u64, saturating_increment}
use upfpolicyengine.Decision.{terminal_result_name}
use upfpolicyengine.RuleService.{update, mark_applied}
use upfpolicyengine.Migration.{update_runtime}
use upfpolicyengine.Reconciliation.{reconcile, attempt_loop}
use upfpolicyengine.Dataplane.{record_outcome, key}
use upfpolicyengine.Dataplane
use upfpolicyengine.Scenarios.Literals.{
  ReadsAddresses, uplink_rules-some, downlink_rules-some, uplink_packet-some, downlink_packet-some,
}

pub record Outcome : Type 0 where
  pub results : List TerminalResult
  pub reports : ℕ
  pub n3_packets : ℕ
  pub n6_packets : ℕ
  pub versions : ℕ × ℕ × ℕ
  pub convergence : ConvergenceStatus
  pub degraded : Bool
  pub dropped : ℕ

abbrev pub outcome : RunResult → Outcome
outcome r = record {
  results = map (λ d. d.terminal_result) r.decisions;
  reports = length r.usage_reports;
  n3_packets = length r.n3_sink;
  n6_packets = length r.n6_sink;
  versions = (r.intended_version, r.applied_version, r.active_version);
  convergence = r.convergence;
  degraded = r.observability_degraded;
  dropped = r.dropped_events;
}

-- One packet that is forwarded to N6 and nothing else of note.
abbrev forwarded : Outcome
forwarded = record {
  results = forwarded_to_n6 ∷ [];
  reports = 0;
  n3_packets = 0;
  n6_packets = 1;
  versions = (3, 3, 3);
  convergence = converged;
  degraded = false;
  dropped = 0;
}

-- What each name is to come to.
abbrev pub expected : Text → Outcome
expected name =
    if name == text "downlink-forward"
    then record forwarded { results = forwarded_to_n3 ∷ []; n3_packets = 1; n6_packets = 0 }
    else if name == text "qer-rate-limit"
    then record forwarded { results = forwarded_to_n6 ∷ rate_limited ∷ []; reports = 1 }
    else if name == text "urr-threshold"
    then record forwarded { reports = 1 }
    else if name == text "overload"
    then record forwarded { degraded = true; dropped = 1 }
    else if name == text "queue-full"
    then record forwarded { results = packet_queue_full ∷ []; n6_packets = 0 }
    else if name == text "shutdown"
    then record forwarded { results = shutdown_deadline ∷ []; n6_packets = 0 }
    else forwarded

abbrev pub outcome_of : Option RunResult → Option Outcome
outcome_of none = none
outcome_of (some r) = some (outcome r)

abbrev Comes : Inet → ℕ → Text → Type 0
Comes inet arrival name = outcome_of (run inet arrival name) ≡ some (expected name)

-- The names that `run` tests for.
abbrev tested_names : List Text
tested_names =
    text "downlink-forward"
    ∷ text "qer-rate-limit"
    ∷ text "urr-threshold"
    ∷ text "pdr-precedence"
    ∷ text "overload"
    ∷ text "adapter-failure"
    ∷ text "recovery"
    ∷ text "queue-full"
    ∷ text "shutdown"
    ∷ []

named-Comes :
    (inet : Inet) (arrival : ℕ) → ReadsAddresses inet → All (Comes inet arrival) tested_names
unfolding text text_eq run play conclude decide play_downlink play_rate_limit play_threshold
    play_precedence play_recovery play_overload play_unprocessed update reconcile attempt_loop
    Dataplane.apply record_outcome Dataplane.has Dataplane.insert mark_applied update_runtime
    process process_flow admit select apply_winner apply_qer apply_far apply_urr settle_qer
    settle_urr commit retain install valid_packet better scan sort_candidates evaluate_candidate
    holds unique_ids_from unique_ids ranges_overlap optional_values_overlap match_spaces_overlap
    validate_far validate_pdr validate_disjoint validate_pdrs validate_rule_set find_rule find_far
    find_qer find_urr memory_eq leading_mask contains contains_port is_valid_tunnel install_runtime
    refill_numerator fill charge evaluate_qer evaluate_far advance evaluate_urr report_id
    checked_add checked_multiply add_u64 saturating_increment terminal_result_name index lookup
    insert
named-Comes inet arrival h =
    let rules = uplink_rules-some inet h in
    let packet = uplink_packet-some inet h in
    (
      rw (downlink_rules-some inet h, downlink_packet-some inet h) refl,
      (
        rw (rules, packet) refl,
        (
          rw (rules, packet) refl,
          (
            rw (rules, packet) refl,
            (
              rw (rules, packet) refl,
              (
                rw (rules, packet) refl,
                (rw (rules, packet) refl, (rw packet refl, (rw packet refl, tt))),
              ),
            ),
          ),
        ),
      ),
    )

-- Any other name is the uplink scenario.
other-Comes :
    (inet : Inet) (arrival : ℕ) (name : Text)
    → ReadsAddresses inet
    → All (λ n. (name == n) ≡ false) tested_names
    → Comes inet arrival name
unfolding text text_eq run play conclude decide play_downlink play_rate_limit play_threshold
    play_precedence play_recovery play_overload play_unprocessed update reconcile attempt_loop
    Dataplane.apply record_outcome Dataplane.has Dataplane.insert mark_applied update_runtime
    process process_flow admit select apply_winner apply_qer apply_far apply_urr settle_qer
    settle_urr commit retain install valid_packet better scan sort_candidates evaluate_candidate
    holds unique_ids_from unique_ids ranges_overlap optional_values_overlap match_spaces_overlap
    validate_far validate_pdr validate_disjoint validate_pdrs validate_rule_set find_rule find_far
    find_qer find_urr memory_eq leading_mask contains contains_port is_valid_tunnel install_runtime
    refill_numerator fill charge evaluate_qer evaluate_far advance evaluate_urr report_id
    checked_add checked_multiply add_u64 saturating_increment terminal_result_name index lookup
    insert play_uplink
other-Comes inet arrival name h (e1, (e2, (e3, (e4, (e5, (e6, (e7, (e8, (e9, u))))))))) =
    rw (e1, e2, e3, e4, e5, e6, e7, e8, e9, uplink_rules-some inet h, uplink_packet-some inet h)
      refl

tested_or_other :
    (P : Text → Type 0) (name : Text) (names : List Text)
    → All P names
    → (All (λ n. (name == n) ≡ false) names → P name)
    → P name
tested_or_other P name [] h k = k tt
tested_or_other P name (n ∷ names) h k = elim (Bool-cases (name == n)) [
  | inl same ↦ subst P (sym ((text_eq_iff name n).0 same)) h.0
  | inr other ↦ tested_or_other P name names h.1 (λ others. k (other, others))
]

-- Where `inet_pton` reads the addresses of the scenarios: a run of any name, whatever the memory of
-- an uninitialised arrival time holds, throws nothing and dereferences no null pointer; its terminal
-- results, its reports, the packets in its sinks, its versions and its convergence, and whether and
-- how many events were dropped are those expected of the name.
pub run-Comes :
    (inet : Inet) (arrival : ℕ) (name : Text)
    → ReadsAddresses inet
    → outcome_of (run inet arrival name) ≡ some (expected name)
run-Comes inet arrival name h =
    tested_or_other (Comes inet arrival) name tested_names (named-Comes inet arrival h)
      (other-Comes inet arrival name h)
