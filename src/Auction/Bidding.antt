-- ===== src/Auction/Bidding.antt =====
-- What SubmitBid of examples/energy_auction/auction.go answers, and what it leaves alone.
use ares_energy_demo.Prelude.{
  nat_eq, nat_beq, nat_beq_iff, ℕ, ◌≡◌, refl, true, Option, none, some, arith, inl, inr, ◌⊎◌,
  Bool-cases,
}
use ares_energy_demo.Auction.State.{Bytes, PeerId, Peer, Auction, is_buyer, is_bidding}
use ares_energy_demo.Auction.Seats.{find_peer}
use ares_energy_demo.Auction.Round.{submit_bid, accept_bid, store_bid, close_bidding, bid_rejected}

-- A bid that the code takes: a seated buyer's, while bidding, under the current key.
pub record Admissible (a : Auction) (i : PeerId) (key_id : ℕ) (p : Peer) : Type 0 where
  pub found : find_peer i a.peers ≡ some p
  pub buyer : is_buyer p.role ≡ true
  pub bidding : is_bidding a.phase ≡ true
  pub current : key_id ≡ a.key_id

accept_bid_cases :
    (a : Auction) (i : PeerId) (key_id : ℕ) (ct : Bytes) (o : Option Peer)
    → find_peer i a.peers ≡ o
    → (accept_bid a o key_id ct ≡ (a, bid_rejected))
      ⊎ ((p : Peer) × Admissible a i key_id p
          × (accept_bid a o key_id ct ≡ close_bidding (store_bid a p ct)))
unfolding accept_bid
accept_bid_cases a i key_id ct none f = inl refl
accept_bid_cases a i key_id ct (some p) f = elim (Bool-cases (is_buyer p.role)) [
  | inr e ↦ inl (ground arith)
  | inl e ↦ elim (Bool-cases (is_bidding a.phase)) [
    | inr e' ↦ inl (ground arith)
    | inl e' ↦ elim (Bool-cases (nat_beq key_id a.key_id)) [
      | inr e'' ↦ inl (ground arith)
      | inl e'' ↦ inr (
        p,
        record {
          found = f;
          buyer = e;
          bidding = e';
          current = (nat_beq_iff key_id a.key_id).0 e'';
        },
        ground arith,
      )
    ]
  ]
]

-- Either the bid is refused and nothing changes, or it is admissible and is recorded.
pub submit_bid_cases :
    (a : Auction) (i : PeerId) (key_id : ℕ) (ct : Bytes)
    → (submit_bid a i key_id ct ≡ (a, bid_rejected))
      ⊎ ((p : Peer) × Admissible a i key_id p
          × (submit_bid a i key_id ct ≡ close_bidding (store_bid a p ct)))
unfolding submit_bid
submit_bid_cases a i key_id ct = accept_bid_cases a i key_id ct (find_peer i a.peers) refl
