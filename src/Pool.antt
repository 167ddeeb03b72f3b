-- ===== src/Pool.antt =====
-- The price pool of pkg/ares/pool: curves over a price grid, and the clearing of two of them.
pub mod Grid
pub mod Clearing
pub mod Indices
pub mod Encoding
pub mod Crossing
pub mod Allocation
pub mod Rounding
pub mod Market
