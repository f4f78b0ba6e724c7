-- ===== src/Pipeline/Accounting.antt =====
-- The FAR and the URR of the winner in `PacketPipeline::process`, and the changes at its end.
use upfpolicyengine.Common.{
  ℕ, ◌≡◌, refl, subst, inl, inr, true, ◌&&◌, Option, none, some, arith, has_value, leb, length,
  Option-cases,
}
use upfpolicyengine.Common.Dict.{lookup, index_present}
use upfpolicyengine.Common.Text.{text_Eq}
use upfpolicyengine.Types.{RuleId, success, Interface_Eq}
use upfpolicyengine.Address.{Inet}
use upfpolicyengine.Packet.{Packet}
use upfpolicyengine.Rules.{Pdr, Far, Urr, RuleSet, find_urr, Qer_HasId, Urr_HasId, Far_HasId}
use upfpolicyengine.Rules.Lookup.{find_rule-All}
use upfpolicyengine.Decision.{PacketDecision, arithmetic_error, capacity_error}
use upfpolicyengine.Urr.{UrrEvaluation, evaluate_urr}
use upfpolicyengine.Far.{FarEvaluation, evaluate_far}
use upfpolicyengine.RuntimeState.{default_counter}
use upfpolicyengine.Validation.Pdrs.{IsValidPdr, Suits-validate_far}
use upfpolicyengine.Validation.{validate_far}
use upfpolicyengine.Far.Branches.{validate_far-valid}
use upfpolicyengine.Migration.Coverage.{Covers}
use upfpolicyengine.Pipeline.State.{Pipeline, go}
use upfpolicyengine.Pipeline.Process.{apply_far, settle_urr, apply_urr}
use upfpolicyengine.Pipeline.Flow.{Ensures, if-Ensures}
use upfpolicyengine.Pipeline.Effects.{Frame-refl, Done, retain-Done}
use upfpolicyengine.Pipeline.Stages.{by_eq, Won, UsageHeld}
use upfpolicyengine.Matcher.Matches.{matched-ingress}

module _ (inet : Inet) (p : Pipeline) (rules : RuleSet) (packet : Packet)
    (covers : Covers rules p.runtime) where
  abbrev Ends : Pipeline → PacketDecision → Type 0
  Ends = Done packet p

  -- The FAR of the winner is there, and valid for the packet.
  abbrev pub FarDone : Far × FarEvaluation × PacketDecision → Type 0
  FarDone (far, e, d) = (e ≡ evaluate_far far packet) × (e.valid ≡ true)

  pub apply_far-Ensures :
      (winner : Pdr) (d : PacketDecision)
      → Won inet packet rules winner
      → Ensures FarDone Ends (apply_far p rules packet winner d)
  unfolding apply_far
  apply_far-Ensures winner d (won, v) =
      let far = v.far in
      let e = evaluate_far far packet in
      let same : winner.source_interface ≡ packet.ingress =
        matched-ingress inet winner packet won.matched in
      let valid_far : e.valid ≡ true = validate_far-valid far packet (
        subst (λ i. validate_far i far ≡ success tt) same
          (Suits-validate_far winner.source_interface far v.suits)) in
      let d' = record d {
        far = record {
          applicable = true;
          far_id = far.id.value;
          action = far.action;
          destination = e.destination;
          before = packet.tunnel;
          after = e.packet.tunnel;
        };
      } in
      let applied : apply_far p rules packet winner d ≡ go (far, e, d') =
        rw (v.far_found, apply_far, valid_far) in
      by_eq FarDone Ends applied (refl, valid_far)

  abbrev pub UrrDone : Pipeline × PacketDecision × Option (ℕ × UrrEvaluation) → Type 0
  UrrDone r = (r.0 ≡ p) × UsageHeld p r.2

  settle_urr-Ensures :
      (d : PacketDecision) (id : RuleId) (usage : UrrEvaluation)
      → has_value (lookup id.value p.runtime.urrs) ≡ true
      → Ensures UrrDone Ends (settle_urr p d id usage)
  unfolding settle_urr
  settle_urr-Ensures d id usage held =
      if-Ensures UrrDone Ends usage.overflow _ _
        (λ over.
          retain-Done packet p p
            (record d { urr = usage.decision; terminal_result = arithmetic_error })
            (refl, Frame-refl p))
        (λ counted.
          if-Ensures UrrDone Ends
            (usage.report_generated && leb p.limits.reports (length p.reports)) _ _
            (λ full.
              retain-Done packet p p
                (record d { urr = usage.decision; terminal_result = capacity_error })
                (refl, Frame-refl p))
            (λ room. (refl, held)))

  count_found :
      (winner : Pdr) (d : PacketDecision) (id : RuleId) (urr : Urr)
      → winner.urr_id ≡ some id
      → find_urr rules id ≡ some urr
      → Ensures UrrDone Ends (apply_urr p rules packet winner d)
  unfolding apply_urr find_urr
  count_found winner d id urr e found =
      let (held, same) =
        find_rule-All (λ u. has_value (lookup u.id.value p.runtime.urrs) ≡ true) id rules.urrs
          covers.1 found in
      elim (Option-cases (lookup urr.id.value p.runtime.urrs)) [
        | inl missing ↦ absurd (ground (arith, held))
        | inr (counter, there) ↦
            let settled : apply_urr p rules packet winner d
                ≡ settle_urr p d id
                    (evaluate_urr urr counter packet.payload_bytes rules.session_id rules.version) =
              rw (
                e,
                apply_urr,
                found,
                index_present urr.id.value default_counter p.runtime.urrs there,
              ) in
            by_eq UrrDone Ends settled (settle_urr-Ensures d id _ (rw (← same) held))
      ]

  no_urr :
      (winner : Pdr) (d : PacketDecision)
      → winner.urr_id ≡ none
      → Ensures UrrDone Ends (apply_urr p rules packet winner d)
  unfolding apply_urr
  no_urr winner d e =
      let skipped : apply_urr p rules packet winner d ≡ go (p, d, none) = rw (e, apply_urr) in
      by_eq UrrDone Ends skipped (refl, tt)

  pub apply_urr-Ensures :
      (winner : Pdr) (d : PacketDecision)
      → IsValidPdr rules winner
      → Ensures UrrDone Ends (apply_urr p rules packet winner d)
  apply_urr-Ensures winner d v = elim (Option-cases winner.urr_id) [
    | inl e ↦ no_urr winner d e
    | inr (id, e) ↦ elim (Option-cases (find_urr rules id)) [
      | inl missing ↦ absurd (ground (arith, v.urr_found))
      | inr (urr, found) ↦ count_found winner d id urr e found
    ]
  ]
