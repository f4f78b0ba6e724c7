-- ===== src/Lib.antt =====
-- A verification library for the UPF policy engine: a user plane function that holds packets
-- against a session's rules.
--
-- A packet enters `PacketPipeline::process` (src/application/packet_pipeline.cpp), which checks it,
-- holds it against each PDR (src/domain/matcher.cpp), takes the winner, and applies its QER, FAR and
-- URR (src/domain/qer.cpp, far.cpp, urr.cpp). Rule sets are validated (src/domain/validation.cpp)
-- before the pipeline or the rule service (src/application/rule_service.cpp) installs them, and both
-- carry the state of QERs and URRs over. Reconciliation (src/application/reconciliation.cpp) brings
-- a data plane (src/adapters/simulated_dataplane.cpp) to the intended rule set. The scheduler
-- (src/application/scheduler.cpp) keeps the bounded queues of work. The program itself
-- (src/cli/main.cpp) runs one of the built-in scenarios (src/application/scenario_runner.cpp) or the
-- packets of one JSON file against the rules of another (src/adapters/json_input.cpp), and prints
-- the result for people (src/adapters/human_output.cpp) or as JSON (src/adapters/json_output.cpp).
--
-- Which file models which part:
--   Types: include/upf/domain/types.hpp. Packet, Rules, Decision, RuntimeState: the headers of
--     those names. Address: src/domain/address.cpp.
--   Validation, Matcher, Qer, Far, Urr: the files of src/domain of those names.
--   Migration: the loops of `PacketPipeline::install` and `RuleService::update`.
--   Pipeline: src/application/packet_pipeline.cpp; State has `install`, `retain` and the packet
--     check, Select the loop over the PDRs, Process the statements of `process` in order.
--   RuleService, Reconciliation, Scheduler: the files of src/application of those names; the steps
--     of RuleService/Reachable have the writes through the accessor `runtime()` too.
--   Dataplane, Ports: include/upf/ports and the simulated adapters of src/adapters.
--   RunResult, Scenarios: src/application/scenario_runner.cpp and its header; Fixtures has the rules
--     and packets, Run the runner, Outcomes what each name comes to.
--   Json: the two JSON adapters; Library has the operations of the JSON library, Input the reader,
--     Output the writer, RunFiles `runFiles`.
--   Human: src/adapters/human_output.cpp; Agreement holds the report against the JSON document.
--   Cli: src/cli/main.cpp, with the exit code and the two output streams as a value.
--   Common: Boolean tests, lists, dictionaries and text that the others share.
--   Witnesses: the theorems at concrete inputs.
--
-- State is passed explicitly: an operation takes the record of its component and returns the new
-- one with what it returns. Numbers are natural numbers; arithmetic that can wrap around in the
-- source has its `% 2 ^ w`. A map is an association list, and a reading by operator[] inserts an
-- entry as in the source. A dereference of a null pointer is a fault, from which nothing follows.
-- The attempt loop of reconciliation runs on fuel; one round more than the limit of attempts is
-- enough while the limit is below the largest 32-bit number. All other loops are structural.
--
-- Not part of the program and a parameter here: `inet_pton` and `inet_ntop`, as a record of two
-- functions; the data plane adapter in the reconciliation, as a record of a state and a function;
-- nlohmann::json, as a record of its operations (Json/Library), with the laws that its documentation
-- gives for reading back what was put in as a record of hypotheses; the contents of the files.
-- An exception that a function catches is a failure, one that it does not catch ends the model of it
-- without a result. The code reads no schema of contracts/, so no theorem supposes that a document
-- is one that a schema allows. Not modelled: tests and build files.
pub mod Common
pub mod Types
pub mod Address
pub mod Packet
pub mod Rules
pub mod Decision
pub mod Validation
pub mod Matcher
pub mod RuntimeState
pub mod Qer
pub mod Far
pub mod Urr
pub mod Migration
pub mod Pipeline
pub mod RuleService
pub mod Dataplane
pub mod Reconciliation
pub mod Scheduler
pub mod Ports
pub mod RunResult
pub mod Scenarios
pub mod Json
pub mod Human
pub mod Cli
pub mod Witnesses
