-- ===== src/Witnesses.antt =====
-- The theorems applied to concrete inputs.
pub mod Fixture
pub mod Packets
pub mod Runs
pub mod Documents
pub mod Files
pub mod Sessions
pub mod Commands
pub mod RuleSets
pub mod Meters
pub mod Control
