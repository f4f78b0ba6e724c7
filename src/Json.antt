-- ===== src/Json.antt =====
-- src/adapters/json_input.cpp and src/adapters/json_output.cpp. The JSON library that they call is
-- not part of the program: Library has it as a record of operations with their documented laws.
-- Input reads rule sets and packets, RunFiles runs them, Output builds the documents.
pub mod Library
pub mod Input
pub mod Output
pub mod RunFiles
pub mod Roundtrip
pub mod Lists
pub mod Described
pub mod ReadRules
pub mod Complete
