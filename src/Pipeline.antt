-- ===== src/Pipeline.antt =====
-- include/upf/application/packet_pipeline.hpp, src/application/packet_pipeline.cpp: installing a
-- rule set and taking a packet through the pipeline.
mod State
mod Select
mod Process
pub mod Flow
pub mod Effects
pub mod Winner
pub mod Stages
pub mod Accounting
pub mod Committing
pub mod Totality
pub mod Reachable
pub mod Capacity
pub mod Room
pub mod Bounds
pub mod Identity
unfoldable pub use State.*
unfoldable pub use Select.*
unfoldable pub use Process.*
