-- ===== src/Address.antt =====
-- include/upf/domain/address.hpp, src/domain/address.cpp: IP addresses, prefixes, port ranges.
-- The types and the membership tests are in Defs, the parsers in Parse; Prefix and Host prove what
-- a prefix contains and what the parser accepts.
mod Defs
mod Parse
pub mod Bits
pub mod Prefix
pub mod Host
unfoldable pub use Defs.*
unfoldable pub use Parse.*
