-- ===== src/Tests/Rounds.antt =====
-- A round of the energy auction at concrete inputs: a seller, two buyers and then a third.
use ares_energy_demo.Prelude.{
  ℤ, pos, negsuc, ◌≡◌, ◌≢◌, refl, true, false, List, [], ◌∷◌, some, arith, In, lookup, insert, keys,
  inl, inr, nat_eq, int_eq, map, get_elem?, ◌≤◌, ◌↔◌, contains, In→contains, ◌++◌, ◌*◌, length, rem,
  ◌+ℤ◌,
}
use ares_energy_demo.Auction.State.{
  PeerId, Peer, Trade, Auction, new_auction, role_buyer, phase_evaluating,
}
use ares_energy_demo.Auction.Seats.{join, find_peer, put_peer, seller, new_peer, buyer_count, seal}
use ares_energy_demo.Auction.Round.{
  publish_keys, next_key_id, submit_bid, accept_bid, store_bid, close_bidding, bid_complete,
  ordered_bids, offer, settle,
}
use ares_energy_demo.Auction.Epoch.{leave}
use ares_energy_demo.Auction.Invariant.{Inv}
use ares_energy_demo.Auction.Peers.{seats}
use ares_energy_demo.Auction.Bidding.{Admissible}
use ares_energy_demo.Auction.Reach.{Step, joins, publishes, bids, Reach, start, next, Reach-Inv}
use ares_energy_demo.Auction.Quorum.{Covered, submit_bid_complete, submit_bid-complete_iff}
use ares_energy_demo.Auction.Collision.{Vacates, submit_all, vacated_seat_blocks}
use ares_energy_demo.Auction.Delivery.{Above, ordered_bids_lem}
use ares_energy_demo.Auction.Provenance.{Source, bids_under_current_key, settle_logs_once}
use ares_energy_demo.Market.{Band, band_at, day_prices}
use ares_energy_demo.Market.Bounds.{Reach-band, index}

-- A seller, 0, and the buyers 1 and 2, under a key.
abbrev pub seated : Auction
seated = join (join (join new_auction 0) 1) 2

abbrev pub keyed : Auction
keyed = publish_keys seated (1 ∷ []) (2 ∷ [])

-- Buyer 1 has sealed.
abbrev half : Auction
half = (submit_bid keyed 1 1 (7 ∷ [])).0

abbrev pub full : Auction
full = (submit_bid half 2 1 (8 ∷ [])).0

absent : (i : PeerId) (js : List PeerId) → contains js i ≡ false → ¬ (In i js)
absent i js h m = ground (arith, h, In→contains js i m)

pub seated-Reach : Reach seated
unfolding new_auction join contains
seated-Reach =
    next (next (next start (joins 0 (absent 0 [] refl))) (joins 1 (absent 1 (0 ∷ []) refl)))
      (joins 2 (absent 2 (0 ∷ 1 ∷ []) refl))

pub keyed-Reach : Reach keyed
keyed-Reach = next seated-Reach (publishes (1 ∷ []) (2 ∷ []))

half-Reach : Reach half
half-Reach = next keyed-Reach (bids 1 1 (7 ∷ []))

half-Inv : Inv half
half-Inv = Reach-Inv half-Reach

full-Reach : Reach full
full-Reach = next half-Reach (bids 2 1 (8 ∷ []))

Reach-band_example :
    (b : Band) × (band_at (λ n. 100 * n) full.hour ≡ some b)
    × (b.hour ≡ full.hour)
    × (get_elem? day_prices (index full.hour) ≡ some b.spot_ct)
    × (b.floor_ct ≤ b.cap_ct)
Reach-band_example = Reach-band (λ n. 100 * n) full full-Reach

Reach-Inv_example : Inv full
Reach-Inv_example = Reach-Inv full-Reach

submit_bid_complete_example : (full.phase ≡ phase_evaluating) × Covered full
unfolding new_auction join new_peer seller put_peer find_peer buyer_count publish_keys next_key_id
    submit_bid accept_bid store_bid close_bidding seal insert lookup
submit_bid_complete_example = submit_bid_complete half 2 1 (8 ∷ []) half-Inv refl

abbrev second : Peer
second = record { id = 2; role = role_buyer; seat = pos 1; sealed = false }

second-Admissible : Admissible half 2 1 second
unfolding new_auction join new_peer seller put_peer find_peer buyer_count publish_keys next_key_id
    submit_bid accept_bid store_bid close_bidding seal insert lookup
second-Admissible = record { found = refl; buyer = refl; bidding = refl; current = refl }

submit_bid-complete_iff_example :
    ((submit_bid half 2 1 (8 ∷ [])).1 ≡ bid_complete) ↔ Covered (store_bid half second (8 ∷ []))
submit_bid-complete_iff_example =
    submit_bid-complete_iff half 2 1 (8 ∷ []) second half-Inv second-Admissible

abbrev first : Peer
first = record { id = 1; role = role_buyer; seat = pos 0; sealed = false }

first-Vacates : Vacates keyed 1 first 1
unfolding new_auction join new_peer seller put_peer find_peer buyer_count publish_keys next_key_id
    submit_bid accept_bid store_bid close_bidding seal insert lookup
first-Vacates = record {
  found = refl;
  buyer = refl;
  unsealed = refl;
  selling = λ e. ground (arith, e);
  count = refl;
  taken = inr (inl refl);
  other = λ e. ground (arith, e);
}

absent_three : ¬ (In 3 keyed.order)
unfolding new_auction join new_peer seller put_peer find_peer buyer_count publish_keys next_key_id
    submit_bid accept_bid store_bid close_bidding seal insert lookup contains
absent_three = absent 3 (0 ∷ 1 ∷ 2 ∷ []) refl

vacated_seat_blocks_example :
    In (pos 1) (seats (leave keyed 1).peers)
    × (seats (join (leave keyed 1) 3).peers ≡ seats (leave keyed 1).peers ++ pos 1 ∷ [])
    × ((submit_bid (submit_all (join (leave keyed 1) 3) ((2, 1, 8 ∷ []) ∷ [])) 3 1 (9 ∷ [])).1
        ≢ bid_complete)
vacated_seat_blocks_example =
    vacated_seat_blocks keyed 1 3 first 1 (Reach-Inv keyed-Reach) first-Vacates absent_three
      ((2, 1, 8 ∷ []) ∷ []) 3 1 (9 ∷ [])

ordered_bids_lem_example :
    (map (λ s. lookup s full.bids) (ordered_bids full).1 ≡ map some (ordered_bids full).0)
    × Above 0 (ordered_bids full).1
    × ((s : ℤ) → In s (keys full.bids) → In s (ordered_bids full).1)
ordered_bids_lem_example = ordered_bids_lem full (Reach-Inv full-Reach)

abbrev second_bid : Step half full
second_bid = bids 2 1 (8 ∷ [])

bids_under_current_key_example : Source second_bid (pos 1) (8 ∷ [])
unfolding new_auction join new_peer seller put_peer find_peer buyer_count publish_keys next_key_id
    submit_bid accept_bid store_bid close_bidding seal insert lookup
bids_under_current_key_example = bids_under_current_key second_bid (pos 1) (8 ∷ []) refl

abbrev offered : Auction
offered = offer full (pos 1) 60

settle_logs_once_example :
    let b = (settle offered [] true).0 in
    ((settle offered [] true).1 ≡ offered.winner_seat)
    × (t : Trade) × (b.trades ≡ t ∷ offered.trades)
    × ((t.at ≡ []) × (t.accepted ≡ true))
    × ((t.slot ≡ offered.hour) × (t.price_ct ≡ offered.price_ct))
    × ((t.bidders ≡ length offered.bids) × (t.seat ≡ offered.winner_seat))
    × (b.bids ≡ [])
    × (b.hour ≡ rem (offered.hour +ℤ pos 1) 24)
    × (settle b [] true ≡ (b, negsuc 0))
unfolding offer
settle_logs_once_example = settle_logs_once offered [] [] true true refl
