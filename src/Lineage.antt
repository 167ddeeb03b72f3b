-- ===== src/Lineage.antt =====
-- The signed provenance of pkg/ares/lineage: nodes, their hashes and signatures, the store.
pub mod Node
pub mod Sort
pub mod Preimage
pub mod Verify
pub mod Integrity
pub mod Evidence
pub mod Store
pub mod Resolve
pub mod Walks
