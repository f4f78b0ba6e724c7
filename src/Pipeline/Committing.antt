-- ===== src/Pipeline/Committing.antt =====
-- The end of `PacketPipeline::process`: the changes that are made once nothing can fail.
use upfpolicyengine.Common.{
  ℕ, ◌≡◌, refl, sym, ap, subst, inl, inr, true, ◌&&◌, Option, none, some, arith, leb, length,
  push_back, Bool-cases, if◌then◌else◌, ◌==◌,
}
use upfpolicyengine.Common.Text.{text_Eq}
use upfpolicyengine.Types.{Interface, is_drop, Interface_Eq, n3, n6}
use upfpolicyengine.Packet.{Packet}
use upfpolicyengine.Rules.{Far, Qer_HasId, Urr_HasId, Far_HasId}
use upfpolicyengine.Decision.{
  PacketDecision, forwarded_to_n3, forwarded_to_n6, far_dropped, capacity_error,
}
use upfpolicyengine.Urr.{UrrEvaluation}
use upfpolicyengine.Far.{FarEvaluation, evaluate_far}
use upfpolicyengine.RuntimeState.{TokenBucketState}
use upfpolicyengine.Far.Branches.{Forwards, up, down, evaluate_far-Forwards, evaluate_far_action}
use upfpolicyengine.Pipeline.State.{Pipeline, retain}
use upfpolicyengine.Pipeline.Process.{commit, store_usage, store_bucket, sink_of, push_sink}
use upfpolicyengine.Pipeline.Effects.{
  Frame, Frame-refl, Done, SameSinks, store_of, retain-Done, insert-SameKeys,
}
use upfpolicyengine.Pipeline.Stages.{BucketHeld, UsageHeld}

module _ (p : Pipeline) (packet : Packet) where
  -- What `commit` stores for the rules leaves the sinks and the frame.
  pub stored-Frame :
      (bucket : Option (ℕ × TokenBucketState)) (usage : Option (ℕ × UrrEvaluation))
      → BucketHeld p bucket
      → UsageHeld p usage
      → Frame p (store_usage (store_bucket p bucket) usage)
        × SameSinks (store_of p) (store_of (store_usage (store_bucket p bucket) usage))
  stored-Frame none none b u = (Frame-refl p, (refl, refl))
  stored-Frame (some (k, next)) none b u =
      ((refl, refl, insert-SameKeys k next p.runtime.qers b, (λ j. refl), refl, refl), (refl, refl))
  stored-Frame none (some (k, e)) b u = (
    (refl, refl, (λ j. refl), insert-SameKeys k e.next p.runtime.urrs u, refl, refl),
    (refl, refl),
  )
  stored-Frame (some (j, next)) (some (k, e)) b u = (
    (
      refl,
      refl,
      insert-SameKeys j next p.runtime.qers b,
      insert-SameKeys k e.next p.runtime.urrs u,
      refl,
      refl,
    ),
    (refl, refl),
  )

  push-Frame :
      (q : Pipeline) (i : Interface) (sent : Packet) → Frame p q → Frame p (push_sink q i sent)
  push-Frame q n3 sent h = h
  push-Frame q n6 sent h = h

  -- The commit of a forwarded packet, by the side that it goes to.
  sent-Done :
      (d : PacketDecision) (far : Far) (e : FarEvaluation) (q : Pipeline)
      → Forwards far packet e
      → Frame p q
      → SameSinks (store_of p) (store_of q)
      → Done packet p (push_sink q e.destination e.packet) (record d {
        terminal_result = if e.destination == n3 then forwarded_to_n3 else forwarded_to_n6;
      })
  sent-Done d far e q (up u to is) frame sinks =
      rw (to, is)
        ((ap (λ s. push_back s (record packet { tunnel = none })) sinks.1, sinks.0), frame)
  sent-Done d far e q (down t u to is) frame sinks =
      rw (to, is)
        ((t, ap (λ s. push_back s (record packet { tunnel = some t })) sinks.0, sinks.1), frame)

  abbrev pub Outcome : Pipeline × PacketDecision → Type 0
  Outcome r = Done packet p r.0 r.1

  -- Whatever the commit comes to.
  pub commit-Done :
      (d : PacketDecision) (far : Far) (bucket : Option (ℕ × TokenBucketState))
      (usage : Option (ℕ × UrrEvaluation))
      → (evaluate_far far packet).valid ≡ true
      → BucketHeld p bucket
      → UsageHeld p usage
      → Outcome (commit p d far (evaluate_far far packet) bucket usage)
  unfolding commit
  commit-Done d far bucket usage v b u =
      let e = evaluate_far far packet in
      let (frame, sinks) = stored-Frame bucket usage b u in
      let full = e.forwarded && leb p.limits.sink_packets (length (sink_of p e.destination)) in
      elim (Bool-cases full) [
        | inl no_room ↦
            let capped : commit p d far e bucket usage
                ≡ retain p (record d { terminal_result = capacity_error }) =
              rw (commit, no_room) in
            subst Outcome (sym capped) (retain-Done packet p p _ (refl, Frame-refl p))
        | inr room ↦ elim (Bool-cases (is_drop far.action)) [
          | inl drops ↦
              let dropped : commit p d far e bucket usage
                  ≡ retain (store_usage (store_bucket p bucket) usage)
                      (record d { terminal_result = far_dropped }) =
                rw (commit, room, drops) in
              subst Outcome (sym dropped)
                (retain-Done packet p _ (record d { terminal_result = far_dropped }) (sinks, frame))
          | inr sends ↦
              let forwards =
                evaluate_far-Forwards far packet
                  (ground (arith, evaluate_far_action far packet v)) in
              let d' = record d { transformed_packet = some e.packet; sink = some e.destination } in
              let q = store_usage (store_bucket p bucket) usage in
              let sent : commit p d far e bucket usage
                  ≡ retain (push_sink q e.destination e.packet) (record d' {
                    terminal_result =
                        if e.destination == n3 then forwarded_to_n3 else forwarded_to_n6;
                  }) =
                rw (commit, room, sends) in
              subst Outcome (sym sent) (
                retain-Done packet p _
                  (record d' {
                    terminal_result =
                        if e.destination == n3 then forwarded_to_n3 else forwarded_to_n6;
                  })
                  (sent-Done d' far e q forwards frame sinks))
        ]
      ]
