-- ===== src/Tests.antt =====
-- Runs of the definitions on small inputs, and the theorems at concrete inputs.
pub mod Data
pub mod Documents
pub mod Rules
pub mod Sections
pub mod Render
pub mod ReportRules
pub mod Pattern
pub mod Framework
pub mod Report
pub mod Kv
pub mod Messages
pub mod Strings
pub mod Ingestion
