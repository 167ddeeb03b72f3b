-- ===== src/Tests.antt =====
-- The theorems at concrete inputs.
pub mod Rounds
pub mod Audits
pub mod Messages
pub mod Pipelines
pub mod Provenance
pub mod Network
pub mod Curves
pub mod Dispatches
pub mod Services
