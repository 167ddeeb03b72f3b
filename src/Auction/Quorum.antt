-- ===== src/Auction/Quorum.antt =====
-- When SubmitBid of examples/energy_auction/auction.go lets the evaluation begin: by counting bids
-- against buyers.
use ares_energy_demo.Prelude.{
  int_eq, nat_eq, [], ◌∷◌, ℕ, ◌≤◌, ◌<◌, ℤ, ◌≡◌, refl, sym, ◌≢◌, List, In, Distinct, keys, length,
  length-keys, arith, length-le_of_subset, subset_of_length_le, Distinct-of_length_le, inl, inr,
  some, true, subst, ap, ◌∙◌, ◌∷◌, ◌↔◌, nat_beq_iff,
}
use ares_energy_demo.Auction.State.{Bytes, PeerId, Peer, Auction, phase_evaluating, is_buyer}
use ares_energy_demo.Auction.Seats.{buyer_count, find_peer}
use ares_energy_demo.Auction.Round.{
  submit_bid, store_bid, close_bidding, bid_rejected, bid_complete, accept_bid,
}
use ares_energy_demo.Auction.Peers.{seats, sealed-seats, length-seats, seats-seal, buyer_count-seal}
use ares_energy_demo.Auction.Invariant.{Inv}
use ares_energy_demo.Auction.Bidding.{Admissible, submit_bid_cases}
use ares_energy_demo.Auction.Reach.{store_bid-Inv, admitted}

bids-of-buyers : (a : Auction) → Inv a → (s : ℤ) → In s (keys a.bids) → In s (seats a.peers)
bids-of-buyers a v s h = sealed-seats s a.peers v.seating.seated (v.ballot.of_sealed s h)

-- As many bids as buyers: what the code asks before it opens the evaluation.
close_bidding_complete :
    (a : Auction)
    → (close_bidding a).1 ≡ bid_complete
    → (buyer_count a.peers ≤ length a.bids)
      × ((close_bidding a).0 ≡ record a { phase = phase_evaluating })
unfolding close_bidding
close_bidding_complete a h = ground arith

-- Every buyer has a seat of its own, with a bid for it.
abbrev pub Covered : Auction → Type 0
Covered a = Distinct (seats a.peers) × ((s : ℤ) → In s (seats a.peers) → In s (keys a.bids))

Covered-of_count : (a : Auction) → Inv a → buyer_count a.peers ≤ length a.bids → Covered a
Covered-of_count a v h = (
  Distinct-of_length_le (keys a.bids) (seats a.peers) v.ballot.one_each (bids-of-buyers a v) enough,
  subset_of_length_le (keys a.bids) (seats a.peers) v.ballot.one_each (bids-of-buyers a v) enough,
)
  where
    enough : length (seats a.peers) ≤ length (keys a.bids)
    enough = omega (arith, length-seats a.peers, length-keys a.bids, h)

close_bidding-Covered :
    (a : Auction)
    → Inv a
    → (close_bidding a).1 ≡ bid_complete
    → ((close_bidding a).0.phase ≡ phase_evaluating) × Covered (close_bidding a).0
close_bidding-Covered a v h =
    let (enough, e) = close_bidding_complete a h in rw e (refl, Covered-of_count a v enough)

-- The evaluation of a round that respects the invariant begins with the last bid only: then the
-- phase is evaluating, no two buyers share a seat, and there is a bid for the seat of each buyer.
pub submit_bid_complete :
    (a : Auction) (i : PeerId) (key_id : ℕ) (ct : Bytes)
    → Inv a
    → (submit_bid a i key_id ct).1 ≡ bid_complete
    → let b = (submit_bid a i key_id ct).0 in (b.phase ≡ phase_evaluating) × Covered b
submit_bid_complete a i key_id ct v h = elim (submit_bid_cases a i key_id ct) [
  | inl e ↦ absurd (ground (arith, e))
  | inr (p, ok, e) ↦ rw e (
      close_bidding-Covered (store_bid a p ct)
        (store_bid-Inv a p ct (admitted a i key_id p ok) ok.buyer ok.bidding v)
        (ap (λ r. r.1) (sym e) ∙ h))
]

covers_count : (a : Auction) → Covered a → buyer_count a.peers ≤ length a.bids
covers_count a c = omega (
  arith,
  length-seats a.peers,
  length-keys a.bids,
  length-le_of_subset (seats a.peers) (keys a.bids) c.0 c.1,
)

close_bidding-Covered' :
    (a : Auction) → Covered a → 0 < buyer_count a.peers → (close_bidding a).1 ≡ bid_complete
unfolding close_bidding
close_bidding-Covered' a c pos = ground (arith, covers_count a c)

buyer_count-pos :
    (i : PeerId) (p : Peer) (ps : List Peer)
    → find_peer i ps ≡ some p
    → is_buyer p.role ≡ true
    → 0 < buyer_count ps
unfolding find_peer buyer_count
buyer_count-pos i p [] f b = cc
buyer_count-pos i p (q ∷ qs) f b = ground (arith, buyer_count-pos i p qs)

pub submit_bid-Admissible :
    (a : Auction) (i : PeerId) (key_id : ℕ) (ct : Bytes) (p : Peer)
    → Admissible a i key_id p
    → submit_bid a i key_id ct ≡ close_bidding (store_bid a p ct)
unfolding submit_bid accept_bid
submit_bid-Admissible a i key_id ct p ok =
    rw (ok.found, accept_bid)
      (ground (arith, ok.buyer, ok.bidding, ok.current, nat_beq_iff key_id a.key_id))

still_buyers :
    (a : Auction) (i : PeerId) (key_id : ℕ) (ct : Bytes) (p : Peer)
    → Admissible a i key_id p
    → 0 < buyer_count (store_bid a p ct).peers
unfolding store_bid
still_buyers a i key_id ct p ok =
    omega (arith, buyer_count-seal p.id a.peers, buyer_count-pos i p a.peers ok.found ok.buyer)

close_bidding_accepts : (a : Auction) → (close_bidding a).1 ≢ bid_rejected
unfolding close_bidding
close_bidding_accepts a h = ground arith

-- In a state that respects the invariant an admissible bid opens the evaluation exactly when,
-- with it, every buyer has a seat of its own and a bid for it.
pub submit_bid-complete_iff :
    (a : Auction) (i : PeerId) (key_id : ℕ) (ct : Bytes) (p : Peer)
    → Inv a
    → Admissible a i key_id p
    → ((submit_bid a i key_id ct).1 ≡ bid_complete) ↔ Covered (store_bid a p ct)
submit_bid-complete_iff a i key_id ct p v ok =
    let e = submit_bid-Admissible a i key_id ct p ok in
    let w = store_bid-Inv a p ct (admitted a i key_id p ok) ok.buyer ok.bidding v in
    rw e (
      (λ h. Covered-of_count (store_bid a p ct) w (close_bidding_complete (store_bid a p ct) h).0),
      (λ c. close_bidding-Covered' (store_bid a p ct) c (still_buyers a i key_id ct p ok)),
    )

-- A bid is refused exactly when it is not admissible, and then nothing changes.
submit_bid-rejected_iff :
    (a : Auction) (i : PeerId) (key_id : ℕ) (ct : Bytes)
    → (((submit_bid a i key_id ct).1 ≡ bid_rejected) ↔ (¬ ((p : Peer) × Admissible a i key_id p)))
      × ((submit_bid a i key_id ct).1 ≡ bid_rejected → (submit_bid a i key_id ct).0 ≡ a)
submit_bid-rejected_iff a i key_id ct = (
  (
    (λ h (p, ok).
        close_bidding_accepts (store_bid a p ct)
          (ap (λ r. r.1) (sym (submit_bid-Admissible a i key_id ct p ok)) ∙ h)),
    (λ none_fits. elim (submit_bid_cases a i key_id ct) [
      | inl e ↦ ap (λ r. r.1) e
      | inr (p, ok, e) ↦ absurd (none_fits (p, ok))
    ]),
  ),
  (λ h. elim (submit_bid_cases a i key_id ct) [
    | inl e ↦ ap (λ r. r.0) e
    | inr (p, ok, e) ↦ absurd (close_bidding_accepts (store_bid a p ct) (ap (λ r. r.1) (sym e) ∙ h))
  ]),
)

-- In a state that respects the invariant, while two buyers share a seat, no bid opens the
-- evaluation.
pub shared_seat_blocks :
    (a : Auction) (i : PeerId) (key_id : ℕ) (ct : Bytes)
    → Inv a
    → ¬ Distinct (seats a.peers)
    → (submit_bid a i key_id ct).1 ≢ bid_complete
unfolding store_bid
shared_seat_blocks a i key_id ct v shared h = elim (submit_bid_cases a i key_id ct) [
  | inl e ↦ ground (arith, e)
  | inr (p, ok, e) ↦ shared (
      subst Distinct (seats-seal p.id a.peers)
        ((submit_bid-complete_iff a i key_id ct p v ok).0 h).0)
]
