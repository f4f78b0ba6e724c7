-- ===== src/Scenarios.antt =====
-- src/application/scenario_runner.cpp: the built-in scenarios. Their rules and packets are in
-- Fixtures, the runner in Run; Literals reads their addresses, and Outcomes says what each scenario
-- comes to.
mod Fixtures
mod Run
pub mod Literals
pub mod Outcomes
unfoldable pub use Fixtures.*
unfoldable pub use Run.*
