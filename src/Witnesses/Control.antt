-- ===== src/Witnesses/Control.antt =====
-- The theorems on rule service, data plane, reconciliation, scheduler and ports, at concrete inputs.
use upfpolicyengine.Common.{
  ℕ, true, ◌+◌, ◌-◌, ◌≡◌, ◌≢◌, refl, ◌||◌, ◌&&◌, nat_eq, some, none, [], ◌∷◌, ◌++◌, map, arith,
  length, min,
}
use upfpolicyengine.Common.Text.{text, text_eq, text_eq_iff}
use upfpolicyengine.Types.{transient_failure, u32_mod, u64_max}
use upfpolicyengine.RuleService.{RuleService, new_service, update}
use upfpolicyengine.RuleService.Updates.{Updates, update-Updates}
use upfpolicyengine.RuleService.Reachable.{start, updates, IsServed, Reachable-IsServed}
use upfpolicyengine.Dataplane.{
  SimulatedDataplane, DataplaneAdapter, plain_result, new_dataplane, has, key, complete_delayed,
  simulated,
}
use upfpolicyengine.Dataplane.Identity.{key_injective}
use upfpolicyengine.Dataplane.Delayed.{complete_delayed-Applied}
use upfpolicyengine.Reconciliation.{default_status, attempt_loop, reconcile}
use upfpolicyengine.Reconciliation.Attempts.{Ends, reconcile-Ends, attempt_loop_wraps}
use upfpolicyengine.Reconciliation.Simulated.{failing, Succeeds, reconcile-Succeeds}
use upfpolicyengine.Scheduler.{
  Scheduler, new_scheduler, enqueue_packet, take_cycle, pending, classify_remainder, control_work,
  packet_work, reconciliation_work,
}
use upfpolicyengine.Scheduler.Bounds.{done, also, packet, IsBounded, Steps-IsBounded}
use upfpolicyengine.Scheduler.Service.{item, cycles, Taken, classify_remainder-map, take_cycle-Fair}
use upfpolicyengine.Ports.{new_event_sink}
use upfpolicyengine.Ports.Laws.{emit_all, emit_all-Bounded}
use upfpolicyengine.Witnesses.Fixture.{rules, limits}

update-Updates_example :
    Updates (new_service limits) (text "u") rules (update (new_service limits) (text "u") rules)
update-Updates_example = update-Updates (new_service limits) (text "u") rules

Reachable-IsServed_example : IsServed limits true (update (new_service limits) (text "u") rules).0
Reachable-IsServed_example =
    Reachable-IsServed limits true (update (new_service limits) (text "u") rules).0
      (updates (text "u") rules start)

-- A service with an update that is not applied yet.
abbrev serving : RuleService
serving = record (new_service limits) {
  intended = some rules;
  active = some rules;
  latest_update_id = text "u";
}

stale_name : text "t" ≢ text "u"
unfolding text text_eq
stale_name e = absurd (ground (arith, (text_eq_iff (text "t") (text "u")).1 e))

key_injective_example : (text "a:b" ≡ text "a:b") × (rules.version ≡ rules.version)
key_injective_example = key_injective (text "a:b") (text "a:b") rules.version rules.version refl

abbrev waiting : SimulatedDataplane
waiting = record { outcomes = []; applied = []; delayed = key (text "u") 1 ∷ [] }

complete_delayed-Applied_example :
    has (key (text "t") 1) (complete_delayed waiting (text "u") 1 (text "u") 1).0.applied ≡ (
      has (key (text "t") 1) waiting.applied
      || (complete_delayed waiting (text "u") 1 (text "u") 1).1
        && (text_eq (text "u") (text "t") && nat_eq 1 1))
complete_delayed-Applied_example =
    complete_delayed-Applied waiting (text "u") (text "t") 1 1 (text "u") 1

reconcile-Ends_example :
    Ends simulated serving 3 (reconcile simulated (3 + 1) serving (new_dataplane (failing 5 [])) 3)
reconcile-Ends_example =
    reconcile-Ends simulated serving (new_dataplane (failing 5 [])) 3 (omega arith)

-- A data plane that never accepts.
abbrev broken : DataplaneAdapter
broken = record {
  State = ℕ;
  apply = λ tries update_id version attempt. (tries + 1, plain_result transient_failure);
}

attempt_loop_wraps_example :
    attempt_loop broken 1000 serving 0 1 (u32_mod - 1) 1 default_status ≡ none
attempt_loop_wraps_example =
    attempt_loop_wraps broken serving 1 (λ d u v a. refl) 1000 0 1 default_status (omega arith)

reconcile-Succeeds_example : Succeeds serving rules refl 3 (omega arith) (2 + 1) (
    reconcile simulated
      (3 + 1)
      serving
      (record { outcomes = failing 2 []; applied = []; delayed = [] })
      3)
unfolding has
reconcile-Succeeds_example =
    reconcile-Succeeds serving rules refl 3 (omega arith) 2 [] [] [] refl (omega arith)

Steps-IsBounded_example : IsBounded (enqueue_packet (new_scheduler limits) (text "p")).0
Steps-IsBounded_example =
    Steps-IsBounded limits (enqueue_packet (new_scheduler limits) (text "p")).0
      (also done (packet (new_scheduler limits) (text "p")))

abbrev busy : Scheduler
busy = record (new_scheduler limits) {
  control = text "c" ∷ text "d" ∷ [];
  packet = text "p" ∷ text "q" ∷ [];
}

classify_remainder-map_example :
    ((classify_remainder busy).1
      ≡ (map (item control_work) busy.control ++ map (item packet_work) busy.packet)
        ++ map (item reconciliation_work) busy.reconciliation)
    × (pending (classify_remainder busy).0 ≡ 0)
classify_remainder-map_example = classify_remainder-map busy

take_cycle-Fair_example : Taken packet_work (text "q") (take_cycle (cycles 1 busy)).1
take_cycle-Fair_example = take_cycle-Fair 1 busy (text "q") refl

emit_all-Bounded_example :
    (length (emit_all (new_event_sink 1) (text "a" ∷ text "b" ∷ [])).events ≡ min 1 2)
    × ((emit_all (new_event_sink 1) (text "a" ∷ text "b" ∷ [])).dropped ≡ min u64_max (0 + (2 - 1)))
emit_all-Bounded_example =
    emit_all-Bounded (new_event_sink 1) (text "a" ∷ text "b" ∷ []) (omega arith) (omega arith)
