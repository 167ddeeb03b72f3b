-- ===== src/Relay.antt =====
-- The relay of examples/energy_auction/main.go: a hub with its connections and the auction, and one
-- handler for each wire message. A handler returns the new hub and the messages that it sends, in
-- order, with their receivers. JSON encoding, the clock and the sine are parameters. Each handler
-- runs whole. A failed write is only logged by the code.
pub mod Hub
pub mod Handlers
pub mod Dispatch
pub mod Refinement
pub mod Confinement
pub mod Secrecy
pub mod Winner
