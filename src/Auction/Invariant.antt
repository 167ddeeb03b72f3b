-- ===== src/Auction/Invariant.antt =====
-- What holds of the auction between two calls of its methods (examples/energy_auction/auction.go).
use ares_energy_demo.Prelude.{
  nat_eq, int_eq, ◌≤◌, ◌<◌, ℤ, pos, negsuc, ◌+ℤ◌, rem, ◌≡◌, refl, ◌∙◌, subst, Bool, true, false,
  List, [], ◌∷◌, ◌++◌, map, some, arith, In, All, Distinct, keys, insert, insert-Distinct,
  In-keys-insert, keys-insert-In, keys-insert_self, inl, inr, ◌⊎◌,
}
use ares_energy_demo.Auction.State.{
  Bytes, PeerId, Peer, Phase, Auction, is_buyer, phase_waiting, phase_settled, new_auction,
}
use ares_energy_demo.Auction.Seats.{ids, find_peer, seal, unseal, buyer_count, new_peer, join}
use ares_energy_demo.Auction.Round.{reset, set_hour, publish_keys}
use ares_energy_demo.Auction.Peers.{
  seller_count, sealed_seats, Seated, ids-append, put_peer_new, buyer_count-append,
  seller_count-append, Seated-append, sealed_seats-append, seller-none, ids-seal, buyer_count-seal,
  seller_count-seal, Seated-seal, In-sealed_seats-seal, sealed_seats-seal-In, ids-unseal,
  buyer_count-unseal, seller_count-unseal, sealed_seats-unseal, Seated-unseal,
}

-- An hour of the day.
abbrev pub InDay : ℤ → Type 0
InDay (pos n) = n < 24
InDay (negsuc n) = ⊥

-- The phases in which no bid is held.
abbrev pub is_quiet : Phase → Bool
is_quiet phase_waiting = true
is_quiet phase_settled = true
is_quiet _ = false

-- The seating: the peers stand in joining order under distinct ids, with one seller and five buyers
-- at most, each buyer in a seat of the cohort.
pub record Seating (peers : List Peer) (order : List PeerId) : Type 0 where
  pub joined : ids peers ≡ order
  pub distinct : Distinct order
  pub one_seller : seller_count peers ≤ 1
  pub cohort : buyer_count peers ≤ 5
  pub seated : All Seated peers

-- The ballot: one bid for each seat of a peer that has sealed, and no other.
pub record Ballot (sealed : List ℤ) (bids : List (ℤ × Bytes)) : Type 0 where
  pub one_each : Distinct (keys bids)
  pub of_sealed : (s : ℤ) → In s (keys bids) → In s sealed
  pub of_bids : (s : ℤ) → In s sealed → In s (keys bids)

pub record Holds (peers : List Peer) (order : List PeerId) (bids : List (ℤ × Bytes)) (hour : ℤ)
    (phase : Phase) (party : List PeerId) : Type 0 where
  pub seating : Seating peers order
  pub ballot : Ballot (sealed_seats peers) bids
  pub day : InDay hour
  pub quiet : is_quiet phase ≡ true → bids ≡ []
  pub party_distinct : Distinct party

abbrev pub Inv : Auction → Type 0
Inv a = Holds a.peers a.order a.bids a.hour a.phase a.epoch_party

pub new_auction-Inv : Inv new_auction
unfolding new_auction buyer_count
new_auction-Inv = record {
  seating = record {
    joined = refl;
    distinct = tt;
    one_seller = omega arith;
    cohort = omega arith;
    seated = tt;
  };
  ballot = record { one_each = tt; of_sealed = λ s h. h; of_bids = λ s h. h };
  day = omega arith;
  quiet = λ h. refl;
  party_distinct = tt;
}

-- Joining in the order of the ids and with nobody sealed anew.
new_peer-Seated : (a : Auction) (i : PeerId) → Seated (new_peer a i)
unfolding new_peer
new_peer-Seated a i = ground arith

In-append : (x y : PeerId) (xs : List PeerId) → In x (xs ++ y ∷ []) → In x xs ⊎ (y ≡ x)
In-append x y [] h = ground arith
In-append x y (z ∷ xs) h = ground (arith, In-append x y xs)

Distinct-append :
    (x : PeerId) (xs : List PeerId) → ¬ (In x xs) → Distinct xs → Distinct (xs ++ x ∷ [])
Distinct-append x [] n d = ((λ h. h), tt)
Distinct-append x (y ∷ xs) n d = ground (arith, Distinct-append x xs, In-append y x xs)

pub new_peer-id : (a : Auction) (i : PeerId) → (new_peer a i).id ≡ i
unfolding new_peer
new_peer-id a i = ground arith

new_peer-sealed : (a : Auction) (i : PeerId) → (new_peer a i).sealed ≡ false
unfolding new_peer
new_peer-sealed a i = ground arith

join-Seating :
    (a : Auction) (i : PeerId)
    → ¬ (In i a.order)
    → Seating a.peers a.order
    → Seating (a.peers ++ new_peer a i ∷ []) (a.order ++ i ∷ [])
unfolding new_peer
join-Seating a i fresh v = record {
  joined = ids-append a.peers _ ∙ ground (arith, v.joined);
  distinct = Distinct-append i a.order fresh v.distinct;
  one_seller =
      ground (arith, seller_count-append (new_peer a i) a.peers, seller-none a.peers, v.one_seller);
  cohort = ground (arith, buyer_count-append (new_peer a i) a.peers, v.cohort);
  seated = Seated-append (new_peer a i) a.peers v.seated (new_peer-Seated a i);
}

-- A tab that joins under a new id keeps the invariant.
pub join-Inv : (a : Auction) (i : PeerId) → ¬ (In i a.order) → Inv a → Inv (join a i)
unfolding join
join-Inv a i fresh v = rw (put_peer_new (new_peer a i) a.peers absent) (record {
  seating = join-Seating a i fresh v.seating;
  ballot = rw (sealed_seats-append (new_peer a i) a.peers (new_peer-sealed a i)) (v.ballot);
  day = v.day;
  quiet = v.quiet;
  party_distinct = v.party_distinct;
})
  where
    absent : ¬ (In (new_peer a i).id (ids a.peers))
    absent h =
        fresh (
          subst (λ l. In i l) v.seating.joined
            (subst (λ z. In z (ids a.peers)) (new_peer-id a i) h))

pub unseal-Seating :
    (ps : List Peer) (order : List PeerId) → Seating ps order → Seating (map unseal ps) order
unseal-Seating ps order v = record {
  joined = ids-unseal ps ∙ v.joined;
  distinct = v.distinct;
  one_seller = omega (arith, seller_count-unseal ps, v.one_seller);
  cohort = omega (arith, buyer_count-unseal ps, v.cohort);
  seated = Seated-unseal ps v.seated;
}

pub no_bids : (ps : List Peer) → Ballot (sealed_seats (map unseal ps)) []
no_bids ps = record {
  one_each = tt;
  of_sealed = λ s h. absurd h;
  of_bids = λ s h. subst (In s) (sealed_seats-unseal ps) h;
}

-- A reset clears the ballot.
pub reset-Inv :
    (a : Auction) → Seating a.peers a.order → InDay a.hour → Distinct a.epoch_party → Inv (reset a)
unfolding reset
reset-Inv a s d p = record {
  seating = unseal-Seating a.peers a.order s;
  ballot = no_bids a.peers;
  day = d;
  quiet = λ h. refl;
  party_distinct = p;
}

pub rem-InDay : (h : ℤ) → InDay (rem (rem h 24 +ℤ pos 24) 24)
rem-InDay (pos n) = omega arith
rem-InDay (negsuc n) = ground arith

pub next_hour-InDay : (h : ℤ) → InDay h → InDay (rem (h +ℤ pos 1) 24)
next_hour-InDay (pos n) d = omega arith
next_hour-InDay (negsuc n) d = absurd d

pub set_hour-Inv : (a : Auction) (h : ℤ) → Inv a → Inv (set_hour a h)
unfolding set_hour
set_hour-Inv a h v =
    reset-Inv (record a { hour = rem (rem h 24 +ℤ pos 24) 24 }) v.seating (rem-InDay h)
      v.party_distinct

pub publish_keys-Inv : (a : Auction) (pk ek : Bytes) → Inv a → Inv (publish_keys a pk ek)
unfolding publish_keys
publish_keys-Inv a pk ek v = record {
  seating = unseal-Seating a.peers a.order v.seating;
  ballot = no_bids a.peers;
  day = v.day;
  quiet = λ h. refl;
  party_distinct = v.party_distinct;
}

-- A bid under the seat of a buyer, who is sealed with it.
pub store_bid-Ballot :
    (a : Auction) (i : PeerId) (p : Peer) (ct : Bytes)
    → find_peer i a.peers ≡ some p
    → Ballot (sealed_seats a.peers) a.bids
    → Ballot (sealed_seats (seal i a.peers)) (insert p.seat ct a.bids)
store_bid-Ballot a i p ct f b = record {
  one_each = insert-Distinct p.seat ct a.bids b.one_each;
  of_sealed = λ s h.
      sealed_seats-seal-In i s p a.peers f
        (ground (arith, In-keys-insert p.seat s ct a.bids h, b.of_sealed s));
  of_bids = λ s h. elim (In-sealed_seats-seal i s p a.peers f h) [
    | inl e ↦
        subst (λ z. In z (keys (insert p.seat ct a.bids))) e (keys-insert_self p.seat ct a.bids)
    | inr old ↦ keys-insert-In p.seat s ct a.bids (b.of_bids s old)
  ];
}

pub seal-Seating :
    (i : PeerId) (p : Peer) (ps : List Peer) (order : List PeerId)
    → find_peer i ps ≡ some p
    → is_buyer p.role ≡ true
    → Seating ps order
    → Seating (seal i ps) order
seal-Seating i p ps order f b v = record {
  joined = ids-seal i ps ∙ v.joined;
  distinct = v.distinct;
  one_seller = omega (arith, seller_count-seal i ps, v.one_seller);
  cohort = omega (arith, buyer_count-seal i ps, v.cohort);
  seated = Seated-seal i p ps f b v.seated;
}
