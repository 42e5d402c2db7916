-- ===== src/Engines.antt =====
-- The parsing engines of include/parser_framework/ParsingEngines.hpp.
pub mod Regex
pub mod Kv
pub mod Json
pub mod Growth
