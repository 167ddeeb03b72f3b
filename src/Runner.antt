-- ===== src/Runner.antt =====
-- The session runner of pkg/ares/phase/runner.go, for pipelines that Compose builds.
pub mod Types
pub mod Compose
pub mod Sessions
pub mod Accumulator
pub mod Advance
pub mod Chain
pub mod Standing
pub mod Placement
pub mod Finished
pub mod Cascade
