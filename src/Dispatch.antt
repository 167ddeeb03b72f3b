-- ===== src/Dispatch.antt =====
-- Lineage in the runner of pkg/ares/phase: what it verifies before a message and commits after a phase.
pub mod Outputs
pub mod Sessions
pub mod Messages
pub mod Composing
pub mod Closed
pub mod Commits
pub mod Kept
pub mod Cascades
pub mod Calls
pub mod Upkeep
pub mod Guard
