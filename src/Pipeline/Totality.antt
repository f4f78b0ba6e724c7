-- ===== src/Pipeline/Totality.antt =====
-- A packet in `PacketPipeline::process` from end to end: it gets a decision, and what it changes is
-- what the decision's terminal result says.
use upfpolicyengine.Common.{ℕ, ◌≡◌, refl, sym, subst, true, Option, some, WhenSome, All}
use upfpolicyengine.Common.Text.{Text, text_Eq}
use upfpolicyengine.Types.{Interface_Eq}
use upfpolicyengine.Address.{Inet}
use upfpolicyengine.Packet.{Packet}
use upfpolicyengine.Rules.{Pdr, Far, RuleSet, Qer_HasId, Urr_HasId, Far_HasId}
use upfpolicyengine.Decision.{PacketDecision}
use upfpolicyengine.Urr.{UrrEvaluation}
use upfpolicyengine.Far.{FarEvaluation}
use upfpolicyengine.RuntimeState.{TokenBucketState}
use upfpolicyengine.Validation.Pdrs.{IsValidPdr}
use upfpolicyengine.Migration.Coverage.{Covers}
use upfpolicyengine.Pipeline.State.{Pipeline, Flow, go, exit, fault, ◌>>=◌}
use upfpolicyengine.Pipeline.Process.{apply_far, apply_urr, commit}
use upfpolicyengine.Pipeline.Flow.{Ensures, >>=-Ensures}
use upfpolicyengine.Pipeline.Effects.{Done}
use upfpolicyengine.Pipeline.Stages.{Won, BucketHeld}
use upfpolicyengine.Pipeline.Stages.{
  admit-Ensures, Admitted, select-Ensures, apply_qer-Ensures, QerDone,
}
use upfpolicyengine.Pipeline.Accounting.{apply_far-Ensures, apply_urr-Ensures, FarDone, UrrDone}
use upfpolicyengine.Pipeline.Committing.{Outcome, commit-Done}
use upfpolicyengine.Pipeline.Process.{apply_winner, process_flow, process, finish, initial_decision}

-- The rules that are installed have valid PDRs, and their state.
abbrev pub IsReady : Pipeline → Type 0
IsReady p = WhenSome p.rules (λ rules. All (IsValidPdr rules) rules.pdrs × Covers rules p.runtime)

module _ (inet : Inet) (p : Pipeline) (packet : Packet) where
  abbrev Ends : Pipeline → PacketDecision → Type 0
  Ends = Done packet p

  module _ (rules : RuleSet) (valid : All (IsValidPdr rules) rules.pdrs)
      (covers : Covers rules p.runtime) where
    abbrev Ended : Flow (Pipeline × PacketDecision) → Type 0
    Ended = Ensures (Outcome p packet) Ends

    -- What follows the URR, the FAR and the QER, from the pipeline that each leaves.
    abbrev then_commit :
        Far
        → FarEvaluation
        → Option (ℕ × TokenBucketState)
        → Pipeline
        → PacketDecision
        → Option (ℕ × UrrEvaluation)
        → Flow (Pipeline × PacketDecision)
    then_commit far e bucket p' d usage = go (commit p' d far e bucket usage)

    abbrev then_account :
        Pdr
        → Pipeline
        → PacketDecision
        → Option (ℕ × TokenBucketState)
        → Flow (Pipeline × PacketDecision)
    then_account winner p' d bucket = do
      (far, e, d') ← apply_far p' rules packet winner d
      (p'', d'', usage) ← apply_urr p' rules packet winner d'
      then_commit far e bucket p'' d'' usage

    account-Ended :
        (winner : Pdr) (d : PacketDecision) (bucket : Option (ℕ × TokenBucketState))
        → Won inet packet rules winner
        → BucketHeld p bucket
        → Ended (then_account winner p d bucket)
    account-Ended winner d bucket won held =
        >>=-Ensures (FarDone inet p rules packet covers) (Outcome p packet) Ends _ _
          (apply_far-Ensures inet p rules packet covers winner d won)
          λ (far, e, d') (same, valid_far).
            >>=-Ensures (UrrDone inet p rules packet covers) (Outcome p packet) Ends _ _
              (apply_urr-Ensures inet p rules packet covers winner d' won.1)
              λ (p', d'', usage) (kept, used).
                subst (λ x. Ended (then_commit far e bucket x d'' usage)) (sym kept)
                  (subst (λ x. Ended (then_commit far x bucket p d'' usage)) (sym same)
                    (commit-Done p packet d'' far bucket usage
                      (subst (λ x. x.valid ≡ true) same valid_far) held used))

    apply_winner-Ended :
        (winner : Pdr) (d : PacketDecision)
        → Won inet packet rules winner
        → Ended (apply_winner p rules packet winner d)
    unfolding apply_winner
    apply_winner-Ended winner d won =
        >>=-Ensures (QerDone inet p rules packet valid covers) (Outcome p packet) Ends _ _
          (apply_qer-Ensures inet p rules packet valid covers winner d won.1)
          λ (p', d', bucket) (same, held).
            subst (λ x. Ended (then_account winner x d' bucket)) (sym same)
              (account-Ended winner d' bucket won held)

  process_flow-Ensures :
      (d : PacketDecision)
      → IsReady p
      → Ensures (Outcome p packet) Ends (process_flow inet p packet d)
  unfolding process_flow
  process_flow-Ensures d ready =
      >>=-Ensures (Admitted p packet) (Outcome p packet) Ends _ _ (admit-Ensures p packet d)
        λ rules admitted.
          let (valid, covers) =
            subst (λ o. WhenSome o (λ r. All (IsValidPdr r) r.pdrs × Covers r p.runtime)) admitted.0
              ready in
          >>=-Ensures (λ r. Won inet packet rules r.0) (Outcome p packet) Ends _ _
            (select-Ensures inet p rules packet valid covers d)
            λ (winner, d') won. apply_winner-Ended rules valid covers winner d' won

  -- The decision that `process` comes to, and the pipeline that it leaves.
  abbrev pub Decides : Option (Pipeline × PacketDecision) → Type 0
  Decides o = (q : Pipeline) × (d : PacketDecision) × (o ≡ some (q, d)) × Done packet p q d

  finish-Decides :
      (m : Flow (Pipeline × PacketDecision))
      → Ensures (Outcome p packet) Ends m
      → Decides (finish m)
  finish-Decides (go (q, d)) h = (q, d, refl, h)
  finish-Decides (exit q d) h = (q, d, refl, h)
  finish-Decides fault h = absurd h

  -- On a pipeline whose installed rules have valid PDRs and a state for each QER and URR, a packet
  -- gets a decision without a null pointer being dereferenced. What it changes is by the terminal
  -- result: one sink and nothing of the packet but its tunnel when it is forwarded, no sink when it
  -- is dropped or refused, no counter and no report when it is over its rate, nothing at all when
  -- it is refused for any other reason. PACKET_QUEUE_FULL and SHUTDOWN_DEADLINE do not occur, and
  -- the limits, the rules, the generations and the keys of the runtime state stay.
  pub process-Decides :
      (run_id scenario_id : Text) → IsReady p → Decides (process inet p packet run_id scenario_id)
  unfolding process
  process-Decides run_id scenario_id ready =
      finish-Decides _ (process_flow-Ensures (initial_decision p packet run_id scenario_id) ready)
