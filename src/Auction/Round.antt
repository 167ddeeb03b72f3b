-- ===== src/Auction/Round.antt =====
-- One sealed-bid round: the methods of examples/energy_auction/auction.go from resetLocked to Settle.
use ares_energy_demo.Prelude.{
  int_eq, ℕ, suc, ◌+◌, ◌%◌, ◌^◌, ℤ, pos, negsuc, ◌+ℤ◌, rem, is_negative, Bool, ◌&&◌, ◌||◌, List, [],
  ◌∷◌, map, Option, none, some, length, lookup, insert, leb, ltb, nat_beq, if◌then◌else◌, not,
}
use ares_energy_demo.Auction.State.{
  Bytes, Float64, PeerId, max_buyers, epoch_size, Peer, Trade, Auction, is_buyer, is_bidding,
  is_open, phase_waiting, phase_bidding, phase_evaluating, phase_offer, phase_settled, epoch_ready,
}
use ares_energy_demo.Auction.Seats.{find_peer, buyer_count, seal, unseal}

-- Drops the keys, bids and outcome of the round; the log, the hour and the audit stay.
unfoldable pub reset : Auction → Auction
reset a = record a {
  phase = phase_waiting;
  pub_key = [];
  eval_key = [];
  bids = [];
  masks = [];
  winner_seat = negsuc 0;
  price_ct = 0;
  peers = map unseal a.peers;
}

unfoldable pub set_hour : Auction → ℤ → Auction
unfolding reset
set_hour a h = reset (record a { hour = rem (rem h 24 +ℤ pos 24) 24 })

-- `keyID++` on a 64-bit int, as its bit pattern.
unfoldable pub next_key_id : ℕ → ℕ
next_key_id k = (k + 1) % 2 ^ 64

unfoldable pub publish_keys : Auction → Bytes → Bytes → Auction
unfolding next_key_id
publish_keys a pk ek = record a {
  pub_key = pk;
  eval_key = ek;
  key_id = next_key_id a.key_id;
  bids = [];
  masks = [];
  winner_seat = negsuc 0;
  peers = map unseal a.peers;
  phase = phase_bidding;
}

pub data BidResult : Type 0 where
  bid_rejected bid_stored bid_complete : BidResult

-- The bid is recorded under the peer's seat and the peer is marked as sealed.
unfoldable pub store_bid : Auction → Peer → Bytes → Auction
store_bid a p ct = record a { bids = insert p.seat ct a.bids; peers = seal p.id a.peers }

unfoldable pub close_bidding : Auction → Auction × BidResult
close_bidding a =
    if ltb (length a.bids) (buyer_count a.peers) || nat_beq (buyer_count a.peers) 0
    then (a, bid_stored)
    else (record a { phase = phase_evaluating }, bid_complete)

unfoldable pub accept_bid : Auction → Option Peer → ℕ → Bytes → Auction × BidResult
unfolding store_bid close_bidding
accept_bid a none key_id ct = (a, bid_rejected)
accept_bid a (some p) key_id ct =
    if not (is_buyer p.role) || not (is_bidding a.phase)
    then (a, bid_rejected)
    else if not (nat_beq key_id a.key_id)
    then (a, bid_rejected)
    else close_bidding (store_bid a p ct)

unfoldable pub submit_bid : Auction → PeerId → ℕ → Bytes → Auction × BidResult
unfolding accept_bid
submit_bid a id key_id ct = accept_bid a (find_peer id a.peers) key_id ct

-- The loop over the seats `seat`, `seat + 1`, … for `n` rounds.
unfoldable pub bids_from : List (ℤ × Bytes) → ℕ → ℕ → List (Bytes × ℤ)
bids_from bids ℕ.zero seat = []
bids_from bids (suc n) seat = elim (lookup (pos seat) bids) [
  | none ↦ bids_from bids n (suc seat)
  | some ct ↦ (ct, pos seat) ∷ bids_from bids n (suc seat)
]

-- The sealed ciphertexts and their seats, in two lists of one length.
unfoldable pub ordered_bids : Auction → List Bytes × List ℤ
unfolding bids_from
ordered_bids a =
    let found = bids_from a.bids max_buyers 0 in (map (λ b. b.0) found, map (λ b. b.1) found)

unfoldable pub set_masks : Auction → List Bytes → Auction
set_masks a masks = record a { masks = masks; phase = phase_offer }

unfoldable pub offer : Auction → ℤ → Float64 → Auction
offer a seat price = record a { winner_seat = seat; price_ct = price; phase = phase_offer }

unfoldable pub settled_trade : Auction → Bytes → Bool → Trade
settled_trade a now accepted = record {
  at = now;
  slot = a.hour;
  price_ct = a.price_ct;
  accepted = accepted;
  bidders = length a.bids;
  seat = a.winner_seat;
}

-- The round is logged, the hour moves on and the round is reset, the log kept.
unfoldable pub log_trade : Auction → Trade → Auction
unfolding reset
log_trade a t = record (reset (record a { hour = rem (a.hour +ℤ pos 1) 24 })) {
  trades = t ∷ a.trades;
  phase = phase_settled;
}

unfoldable pub ready_epoch : Auction → Auction
ready_epoch a =
    if is_open a.epoch && leb epoch_size (length a.trades)
    then record a { epoch = epoch_ready }
    else a

-- `now` is the formatted time of day. The result is the winning seat, or -1.
unfoldable pub settle : Auction → Bytes → Bool → Auction × ℤ
unfolding settled_trade log_trade ready_epoch
settle a now accepted =
    if is_negative a.winner_seat
    then (a, negsuc 0)
    else (ready_epoch (log_trade a (settled_trade a now accepted)), a.winner_seat)
