-- ===== src/Auction.antt =====
-- The demo's state machine (examples/energy_auction/auction.go): each method, which runs under the
-- auction's mutex, is a function from the state to the new state and its result.
pub mod State
pub mod Seats
pub mod Round
pub mod Epoch
pub mod Snapshot
pub mod Peers
pub mod Bidding
pub mod Invariant
pub mod Reach
pub mod Quorum
pub mod Audit
pub mod Party
pub mod Retrade
pub mod Provenance
pub mod Delivery
pub mod Frozen
pub mod Collision
