-- ===== src/Tests/Messages.antt =====
-- The relay at concrete inputs (examples/energy_auction/main.go): three tabs, of which two are buyers.
use ares_energy_demo.Prelude.{
  ℕ, pos, ◌≡◌, ◌≢◌, refl, true, List, [], ◌∷◌, ◌++◌, In, inl, inr, arith, ◌≤◌, ◌*◌,
}
use ares_energy_demo.Auction.State.{PeerId, new_auction}
use ares_energy_demo.Prelude.{insert, lookup}
use ares_energy_demo.Auction.State.{new_auction}
use ares_energy_demo.Auction.Seats.{
  join, new_peer, seller, put_peer, find_peer, buyer_count, seal, peer_at_seat, buyer_at,
}
use ares_energy_demo.Auction.Round.{
  offer, publish_keys, next_key_id, submit_bid, accept_bid, store_bid, close_bidding,
}
use ares_energy_demo.Auction.Reach.{Reach}
use ares_energy_demo.Relay.Hub.{
  External, Hub, Msg, blank, keys, bid, masks, offered, settles, epochstart, new_hub, with_auction,
}
use ares_energy_demo.Relay.Handlers.{handle_settle, handle_offer}
use ares_energy_demo.Relay.Dispatch.{Event, connects, disconnects, message, step, run}
use ares_energy_demo.Relay.Refinement.{run-Reach}
use ares_energy_demo.Relay.Confinement.{AllConfined, step-Confined}
use ares_energy_demo.Relay.Winner.{outputs, received, winner_stays_secret, offer_reveals_seat}
use ares_energy_demo.Tests.Rounds.{full}

abbrev outside : External
outside = record { sine = λ n. 100 * n; marshal_seats = λ _. []; clock = 50 ∷ [] }

abbrev sealed_bid : ℕ → Msg
sealed_bid n = record (blank bid) { key_id = 1; blob = n ∷ [] }

-- A seller and two buyers join, the keys are published, one bid is sealed and the other buyer leaves.
abbrev session : List Event
session =
    connects
    ∷ connects
    ∷ connects
    ∷ message 2 (record (blank keys) { blob = 1 ∷ []; note = 2 ∷ [] })
    ∷ message 2 (sealed_bid 7)
    ∷ disconnects 3
    ∷ []

run-Reach_example :
    let h = run outside new_hub session in
    Reach h.auction × (h.auction.order ≡ h.conns) × ((i : PeerId) → In i h.conns → i ≤ h.next_id)
run-Reach_example = run-Reach outside session

-- All buyers have sealed, and the seat 1 is offered the hour.
abbrev priced : Hub
priced = record { conns = 0 ∷ 1 ∷ 2 ∷ []; auction = offer full (pos 1) 60; next_id = 2 }

abbrev masking : Msg
masking = record (blank masks) { blobs = (4 ∷ []) ∷ [] }

step-Confined_example :
    AllConfined outside
      (step outside priced (message 1 masking)).0
      (step outside priced (message 1 masking)).1
step-Confined_example = step-Confined outside priced (message 1 masking)

abbrev agreed : Msg
agreed = record (blank settles) { ok = true; price_ct = 60 }

winner_stays_secret_example :
    let r = handle_settle outside priced agreed in
    let q =
      handle_settle outside
        (with_auction priced (record priced.auction { winner_seat = pos 0 }))
        agreed in
    received 0 (r.1 ++ outputs outside r.0 (message 1 (blank epochstart) ∷ []))
    ≡ received 0 (q.1 ++ outputs outside q.0 (message 1 (blank epochstart) ∷ []))
unfolding new_auction join new_peer seller put_peer find_peer buyer_count publish_keys next_key_id
    submit_bid accept_bid store_bid close_bidding seal insert lookup offer peer_at_seat buyer_at
winner_stays_secret_example =
    winner_stays_secret outside priced (pos 0) agreed (message 1 (blank epochstart) ∷ []) 0 refl
      refl (λ e. ground (arith, e)) (λ e. ground (arith, e))

abbrev offering : Msg
offering = record (blank offered) { seat = pos 1; price_ct = 60 }

offer_reveals_seat_example :
    received 2 (handle_offer outside priced offering).1
    ≢ received 2 (handle_offer outside priced (record offering { seat = pos 0 })).1
offer_reveals_seat_example =
    offer_reveals_seat outside priced offering (pos 0) 2 (inr (inr (inl refl)))
      (λ e. ground (arith, e))
