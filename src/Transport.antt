-- ===== src/Transport.antt =====
-- The network side of a session service: pkg/ares/transport.
pub mod Frames
pub mod Limiter
pub mod Hub
pub mod Traffic
pub mod Sequence
pub mod Replay
pub mod Budget
pub mod Loss
pub mod Artifacts
pub mod Events
pub mod LogStream
pub mod Contents
pub mod LogRing
pub mod Sse
