-- ===== src/Service.antt =====
-- The service of pkg/ares/transport that joins the hub to a runner with lineage.
pub mod Assembly
pub mod Triggers
pub mod Checks
