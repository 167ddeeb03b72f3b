-- ===== src/Lib.antt =====
-- Verification of the ARES energy demo: the relay of the blind energy auction, and of pkg/ares the
-- phase runner with and without lineage, the lineage, the transport hub and the price pool.
--
-- The parts. In the energy auction (examples/energy_auction) browser tabs take the seats of one seller
-- and of up to five buyers. The seller publishes a key, the buyers seal their bids under it, the first
-- buyer ranks them blindly, the seller opens the winning one and makes an offer, and the round is
-- settled and logged. After five trades the tabs audit the epoch together. The server only relays
-- ciphertexts and keeps this state. The phase runner (pkg/ares/phase) checks a pipeline of phases and
-- drives sessions through it. The lineage (pkg/ares/lineage) signs what phases produce and stores it; in a
-- runner built by ComposeWith, HandleLineageMessage verifies the node of a frame before the phase gets
-- the frame, and a phase's outputs are committed after its Exit. The transport (pkg/ares/transport)
-- authenticates connections, drops replayed and too frequent frames and passes the others on to the
-- runner; it keeps artifacts, events and the log. The pool (pkg/ares/pool) lays offers out as curves
-- over a price grid and clears them.
--
-- The files.
--   Prelude: the names that the others share; tests, lists, Go's int and Go's map.
--   Market: examples/energy_auction/market.go (DayPrices, PVOutput, BandAt).
--   Auction: examples/energy_auction/auction.go. State has its types and NewAuction; Seats has Join,
--     Evaluator, SellerID and PeerAtSeat; Round has Reset, SetHour, PublishKeys, SubmitBid,
--     OrderedBids, SetMasks, Offer and Settle; Epoch has Leave, StartEpochChain, AdvanceEpochChain,
--     SubmitEpochPartial, SubmitEpochTotal, EpochPartials, EpochCiphertexts, CloseEpoch and NewEpoch;
--     Snapshot has Snapshot. The other children are proofs; Reach has the methods as steps.
--   Relay: examples/energy_auction/main.go. Hub has the messages, send and broadcast; Handlers has
--     serveWS's bookkeeping and the messages of a round; Dispatch has those of the audit and the
--     switch of handle. The relay calls the auction's methods and sends what they return.
--   Runner: pkg/ares/phase. Types has phase.go and types.go; Compose, Sessions and Advance have
--     runner.go; Accumulator has context.go and accumulator.go. The other children are proofs.
--   Lineage: pkg/ares/lineage. Node has node.go; Verify has commit.go and verify.go; Store has
--     inmemory.go. The other children are proofs.
--   Dispatch: pkg/ares/phase with lineage, on the runner's and the lineage's definitions. Outputs has
--     commitPhaseOutputsIfEnabled, resolveParents and CommitArtifact; Sessions has advance and
--     AdvanceToState with the commit after Exit; Messages has HandleLineageMessage, the failure hook
--     and the claims; Composing has ComposeWith; Calls has the calls on a runner. The other children
--     are proofs.
--   Transport: pkg/ares/transport. Frames has WSMessage, ValidateInboundMessage and
--     checkAndRecordSeq; Limiter has rate_limit.go; Hub has hub.go and auth.go; Traffic has what happens
--     to a hub as events; Artifacts, Events and LogStream have artifacts.go, events.go and
--     log_stream.go. The other children are proofs.
--   Pool: pkg/ares/pool. Grid has grid.go, Clearing has clearing.go; the other children are proofs.
--   Service: Assembly has NewService and its message handler (pkg/ares/transport/service.go), Triggers
--     has trigger.go, both for a runner with lineage; Checks is proofs.
--   Tests: the theorems at concrete inputs.
--
-- How the code is read. A method is a function from the state to the state and what it returns. The
-- mutexes make a method of the auction atomic; a handler of the relay is taken whole, its calls and
-- sends in the code's order. Connecting is one step, though serveWS adds the connection under one
-- lock and calls Join under another. A connection's id "p" and n is the number n, the empty id is none.
-- Go's maps are association lists; where the code iterates over one, the order is that of
-- insertion. A float64 that the relay only forwards is its bit pattern; prices are integers.
-- `key_id` is a 64-bit pattern and wraps; the counters of calls and of connections are unbounded. A
-- write to a connection that fails is not told from one that is lost. The contexts of a runner's
-- sessions point to one store: a context is paired with the store, which is put into it before a
-- call and taken out after it. EndSession leaves the store as it is. The hub's goroutines meet in
-- its maps: one frame is read, checked and passed on as one step, and the steps of the connections
-- come in any order. The outbound queues are filled and not drained. The amounts of the limiter and
-- the quantities and prices of the pool are integers of a smallest unit, reckoned with exactly; a
-- ratio is a numerator over a denominator. The encoders of the pool keep tickEpsilon, and a
-- quantity or a sum that is infinite or NaN is no number; the clearing takes curves of finite
-- numbers. A reader of server-sent events dispatches an event at an empty line only.
--
-- Fuel. The loops of advance and AdvanceToState are bounded in the code by the number of phases
-- plus one, and that is the fuel: running out is the code's own error. All other loops are over
-- lists or count buckets and slots of the pool's grid.
--
-- Parameters: the sine, the clock and json.Marshal of the relay; the comparisons of constraint
-- values and the phases' hooks of the runner; what a context holds under a key as bytes, and
-- ctx.Set; the text of an error; what int() of a float out of range is, which Go leaves to the
-- platform; SHA-256, HMAC, the signature scheme and the wall clock.
--
-- Not modelled: HTTP, WebSocket, JSON, heartbeats, the service's routes (admin.go) and its timer;
-- the cryptography and its bindings; the homomorphic circuit of the pool, with SlotBoundaryMask and
-- PaddingValue, which serve it alone; stores other than the in-memory one; the text that a node's
-- error carries; anonymous phases and onion routing; the other examples, the commands and the
-- clients.
pub mod Prelude
pub mod Market
pub mod Auction
pub mod Relay
pub mod Lineage
pub mod Runner
pub mod Dispatch
pub mod Transport
pub mod Pool
pub mod Service
pub mod Tests
