-- ===== src/Auction/Collision.antt =====
-- Join of examples/energy_auction/auction.go numbers a new buyer's seat by the count of buyers, so a
-- seat that was left free in the middle is never given again and the last one is given twice.
use ares_energy_demo.Prelude.{
  nat_eq, nat_beq_iff, ℕ, suc, ◌<◌, ℤ, pos, ◌≡◌, sym, ◌∙◌, ap, subst, ◌≢◌, true, false, List, [],
  ◌∷◌, ◌++◌, some, none, arith, In, Distinct, inl, inr, In-erase,
}
use ares_energy_demo.Auction.State.{Bytes, PeerId, Peer, Auction, is_buyer}
use ares_energy_demo.Auction.Seats.{
  ids, find_peer, delete_peer, buyer_count, seller, new_peer, join,
}
use ares_energy_demo.Auction.Round.{submit_bid, store_bid, close_bidding, bid_complete}
use ares_energy_demo.Auction.Bidding.{submit_bid_cases}
use ares_energy_demo.Auction.Epoch.{ends_round, leave, remove_peer, end_round, check_audit}
use ares_energy_demo.Auction.Peers.{seats, delete_peer_absent, put_peer_new, seats-seal}
use ares_energy_demo.Auction.Invariant.{Inv, join-Inv, new_peer-id}
use ares_energy_demo.Auction.Reach.{leave-Inv, submit_bid-Inv}
use ares_energy_demo.Auction.Quorum.{shared_seat_blocks}

module _ (i : PeerId) (p : Peer) (buyer : is_buyer p.role ≡ true) where
  -- The buyer leaves: one buyer fewer, and the others keep their seats.
  buyer_count-delete :
      (ps : List Peer)
      → Distinct (ids ps)
      → find_peer i ps ≡ some p
      → buyer_count ps ≡ suc (buyer_count (delete_peer i ps))
  unfolding find_peer delete_peer buyer_count
  buyer_count-delete [] d f = cc
  buyer_count-delete (q ∷ qs) d f =
      ground (arith, nat_beq_iff q.id i, buyer_count-delete qs d.1, delete_peer_absent i qs)

  seats-delete :
      (s : ℤ) (ps : List Peer)
      → Distinct (ids ps)
      → find_peer i ps ≡ some p
      → p.seat ≢ s
      → In s (seats ps)
      → In s (seats (delete_peer i ps))
  unfolding find_peer delete_peer
  seats-delete s [] d f ne h = h
  seats-delete s (q ∷ qs) d f ne h =
      ground (arith, nat_beq_iff q.id i, seats-delete s qs d.1, delete_peer_absent i qs)

  seller-delete :
      (ps : List Peer)
      → Distinct (ids ps)
      → find_peer i ps ≡ some p
      → seller ps ≢ none
      → seller (delete_peer i ps) ≢ none
  unfolding find_peer delete_peer seller
  seller-delete [] d f h = h
  seller-delete (q ∷ qs) d f h =
      ground (arith, nat_beq_iff q.id i, seller-delete qs d.1, delete_peer_absent i qs)

seats-append :
    (p : Peer) (ps : List Peer)
    → is_buyer p.role ≡ true
    → seats (ps ++ p ∷ []) ≡ seats ps ++ p.seat ∷ []
seats-append p [] b = ground arith
seats-append p (q ∷ qs) b = ground (arith, seats-append p qs)

In-last : (x s : ℤ) (xs : List ℤ) → s ≡ x → In x (xs ++ s ∷ [])
In-last x s [] e = inl e
In-last x s (y ∷ xs) e = inr (In-last x s xs e)

repeated : (s : ℤ) (xs : List ℤ) → In s xs → ¬ Distinct (xs ++ s ∷ [])
repeated s [] h d = h
repeated s (x ∷ xs) (inl e) d = d.0 (In-last x s xs (sym e))
repeated s (x ∷ xs) (inr h) d = repeated s xs h d.1

-- A buyer that had not sealed leaves its peers to the map's deletion.
leave-peers :
    (a : Auction) (i : PeerId)
    → ends_round (find_peer i a.peers) ≡ false
    → ((leave a i).peers ≡ delete_peer i a.peers)
unfolding leave end_round check_audit remove_peer
leave-peers a i h = ground arith

new_peer-buyer :
    (a : Auction) (i : PeerId)
    → seller a.peers ≢ none
    → buyer_count a.peers < 5
    → (is_buyer (new_peer a i).role ≡ true) × ((new_peer a i).seat ≡ pos (buyer_count a.peers))
unfolding new_peer
new_peer-buyer a i h k = ground arith

leave-order :
    (a : Auction) (i j : PeerId)
    → ends_round (find_peer i a.peers) ≡ false
    → ¬ (In j a.order)
    → ¬ (In j (leave a i).order)
unfolding leave end_round check_audit remove_peer
leave-order a i j h fresh m = fresh (In-erase i j a.order (ground arith))

-- What it takes for a newcomer to be given an occupied seat: the buyer that leaves has not sealed,
-- somebody else holds the last seat, and a seller is there.
pub record Vacates (a : Auction) (i : PeerId) (p : Peer) (last : ℕ) : Type 0 where
  pub found : find_peer i a.peers ≡ some p
  pub buyer : is_buyer p.role ≡ true
  pub unsealed : p.sealed ≡ false
  pub selling : seller a.peers ≢ none
  pub count : buyer_count a.peers ≡ suc last
  pub taken : In (pos last) (seats a.peers)
  pub other : p.seat ≢ pos last

Vacates-ends_round :
    (a : Auction) (i : PeerId) (p : Peer) (last : ℕ)
    → Vacates a i p last
    → ends_round (find_peer i a.peers) ≡ false
Vacates-ends_round a i p last h = rw (h.found, ends_round) (ground (arith, h.buyer, h.unsealed))

-- A newcomer to a cohort of `last` buyers gets the seat `last`.
join-seats :
    (b : Auction) (j : PeerId) (last : ℕ)
    → ¬ (In j (ids b.peers))
    → seller b.peers ≢ none
    → buyer_count b.peers ≡ last
    → last < 5
    → seats (join b j).peers ≡ seats b.peers ++ pos last ∷ []
unfolding join
join-seats b j last fresh selling count room =
    let (buyer, seat) = new_peer-buyer b j selling (omega arith) in
    ap seats (
      put_peer_new (new_peer b j) b.peers
        (subst (λ z. ¬ (In z (ids b.peers))) (sym (new_peer-id b j)) fresh))
    ∙ seats-append (new_peer b j) b.peers buyer
    ∙ ap (λ s. seats b.peers ++ s ∷ []) (seat ∙ ap pos count)

-- The auction after these bids, each of a tab, under a key id, with a ciphertext.
unfoldable pub submit_all : Auction → List (PeerId × ℕ × Bytes) → Auction
submit_all a [] = a
submit_all a ((i, key_id, ct) ∷ bs) = submit_all (submit_bid a i key_id ct).0 bs

close_bidding-peers : (a : Auction) → (close_bidding a).0.peers ≡ a.peers
unfolding close_bidding
close_bidding-peers a = ground arith

submit_bid-seats :
    (a : Auction) (i : PeerId) (key_id : ℕ) (ct : Bytes)
    → seats (submit_bid a i key_id ct).0.peers ≡ seats a.peers
unfolding store_bid
submit_bid-seats a i key_id ct = elim (submit_bid_cases a i key_id ct) [
  | inl e ↦ ap (λ r. seats r.0.peers) e
  | inr (p, ok, e) ↦
      ap (λ r. seats r.0.peers) e
      ∙ ap seats (close_bidding-peers (store_bid a p ct))
      ∙ seats-seal p.id a.peers
]

-- While two buyers share a seat, bids do not separate them.
shared_seat_lasts :
    (a : Auction) (bs : List (PeerId × ℕ × Bytes)) (k : PeerId) (key_id : ℕ) (ct : Bytes)
    → Inv a
    → ¬ Distinct (seats a.peers)
    → (submit_bid (submit_all a bs) k key_id ct).1 ≢ bid_complete
unfolding submit_all
shared_seat_lasts a [] k key_id ct v shared = shared_seat_blocks a k key_id ct v shared
shared_seat_lasts a ((i, id, c) ∷ bs) k key_id ct v shared =
    shared_seat_lasts (submit_bid a i id c).0 bs k key_id ct (submit_bid-Inv a i id c v)
      (λ d. shared (subst Distinct (submit_bid-seats a i id c) d))

-- Seats are numbered by the count of buyers. So, in a state that respects the invariant, when a
-- buyer that has not sealed leaves a seat other than the last, a buyer holds the last one, a
-- seller is there and a tab then joins under a new id, the newcomer gets the last seat, which that
-- buyer still holds; and after whatever bids that follow no further bid opens the evaluation.
pub vacated_seat_blocks :
    (a : Auction) (i j : PeerId) (p : Peer) (last : ℕ)
    → Inv a
    → Vacates a i p last
    → ¬ (In j a.order)
    → (bs : List (PeerId × ℕ × Bytes)) (k : PeerId) (key_id : ℕ) (ct : Bytes)
    → In (pos last) (seats (leave a i).peers)
      × (seats (join (leave a i) j).peers ≡ seats (leave a i).peers ++ pos last ∷ [])
      × ((submit_bid (submit_all (join (leave a i) j) bs) k key_id ct).1 ≢ bid_complete)
vacated_seat_blocks a i j p last v h fresh bs k key_id ct =
    let off = Vacates-ends_round a i p last h in
    let e = leave-peers a i off in
    let w = leave-Inv a i v in
    let ds = subst Distinct (sym v.seating.joined) v.seating.distinct in
    let new = leave-order a i j off fresh in
    let count = buyer_count-delete i p h.buyer a.peers ds h.found in
    let taken =
      subst (λ ps. In (pos last) (seats ps)) (sym e)
        (seats-delete i p h.buyer (pos last) a.peers ds h.found h.other h.taken) in
    let seated =
      join-seats (leave a i) j last (λ m. new (subst (In j) w.seating.joined m))
        (subst (λ ps. seller ps ≢ none) (sym e)
          (seller-delete i p h.buyer a.peers ds h.found h.selling))
        (ap buyer_count e ∙ omega (arith, count, h.count))
        (omega (arith, h.count, v.seating.cohort)) in
    (
      taken,
      seated,
      shared_seat_lasts (join (leave a i) j) bs k key_id ct (join-Inv (leave a i) j new w)
          (λ d. repeated (pos last) (seats (leave a i).peers) taken (subst Distinct seated d)),
    )
