-- ===== src/Dataplane.antt =====
-- include/upf/ports/dataplane_adapter.hpp, src/adapters/simulated_dataplane.cpp: the data plane as
-- an interface, and the simulated one.
pub mod Identity
pub mod Delayed
use upfpolicyengine.Common.{
  ℕ, Bool, true, false, not, ◌&&◌, ◌||◌, List, [], ◌∷◌, ◌++◌, ◌==◌, nat_eq, if◌then◌else◌,
}
use upfpolicyengine.Common.Text.{Text, text, text_Eq, text_eq}
use upfpolicyengine.Common.Decimal.{decimal}
use upfpolicyengine.Types.{
  AdapterOutcome, immediate_success, delayed_success, transient_failure, permanent_failure,
}

pub record AdapterResult : Type 0 where
  pub outcome : AdapterOutcome
  pub due_time_micros : ℕ

-- The constructor's default arguments.
abbrev pub plain_result : AdapterOutcome → AdapterResult
plain_result outcome = record { outcome = outcome; due_time_micros = 0 }

-- `DataplaneAdapter`: a state, and the virtual `apply` of an update, a version and an attempt.
pub record DataplaneAdapter : Type 1 where
  pub State : Type 0
  pub apply : State → Text → ℕ → ℕ → State × AdapterResult

-- `outcomes` are those from `next_` on; the two sets hold identities.
pub record SimulatedDataplane : Type 0 where
  pub outcomes : List AdapterResult
  pub applied : List Text
  pub delayed : List Text

-- The constructor.
abbrev pub new_dataplane : List AdapterResult → SimulatedDataplane
new_dataplane outcomes = record { outcomes = outcomes; applied = []; delayed = [] }

-- `set.count(identity) != 0`
unfoldable pub has : Text → List Text → Bool
has identity [] = false
has identity (t ∷ ts) = t == identity || has identity ts

-- `set.insert(identity)`
unfoldable pub insert : Text → List Text → List Text
unfolding has
insert identity ts = if has identity ts then ts else identity ∷ ts

-- `set.erase(identity)`
unfoldable pub erase : Text → List Text → List Text
erase identity [] = []
erase identity (t ∷ ts) = let rest = erase identity ts in if t == identity then rest else t ∷ rest

-- `SimulatedDataplane::key`
unfoldable pub key : Text → ℕ → Text
key update_id version = update_id ++ b':' ∷ decimal version

-- The outcome of an application that is not known yet, and its two `if`s.
unfoldable pub record_outcome : SimulatedDataplane → Text → AdapterResult → SimulatedDataplane
unfolding insert
record_outcome d identity result = elim result.outcome [
  | immediate_success ↦ record d { applied = insert identity d.applied }
  | delayed_success ↦ record d { delayed = insert identity d.delayed }
  | _ ↦ d
]

-- `SimulatedDataplane::apply`; the attempt is not used.
unfoldable pub apply : SimulatedDataplane → Text → ℕ → ℕ → SimulatedDataplane × AdapterResult
unfolding record_outcome
apply d update_id version attempt =
    let identity = key update_id version in
    if has identity d.applied then (d, plain_result immediate_success) else elim d.outcomes [
      | [] ↦ (
        record_outcome d identity (plain_result immediate_success),
        plain_result immediate_success,
      )
      | result ∷ later ↦ (record_outcome (record d { outcomes = later }) identity result, result)
    ]

-- `SimulatedDataplane::completeDelayed`
unfoldable pub complete_delayed :
    SimulatedDataplane → Text → ℕ → Text → ℕ → SimulatedDataplane × Bool
unfolding has insert erase
complete_delayed d update_id version latest_update_id latest_version =
    let identity = key update_id version in
    if has identity d.applied
    then (d, true)
    else if not (update_id == latest_update_id)
        || not (nat_eq version latest_version)
        || not (has identity d.delayed)
    then (d, false)
    else (
      record d { applied = insert identity d.applied; delayed = erase identity d.delayed },
      true,
    )

-- The simulated data plane behind the interface.
abbrev pub simulated : DataplaneAdapter
simulated = record { State = SimulatedDataplane; apply = apply }
