-- ===== src/Auction/Peers.antt =====
-- Facts about the peer map of examples/energy_auction/auction.go under its elementary updates.
use ares_energy_demo.Prelude.{
  nat_eq, nat_beq_iff, ℕ, ◌+◌, ◌≤◌, ◌<◌, ℤ, pos, negsuc, ◌≡◌, refl, ap, true, false, List, [], ◌∷◌,
  ◌++◌, map, none, some, arith, In, All, Distinct, erase, if◌then◌else◌, ◌⊎◌, length,
}
use ares_energy_demo.Auction.State.{PeerId, Peer, is_seller, is_buyer}
use ares_energy_demo.Auction.Seats.{
  ids, find_peer, put_peer, delete_peer, seal, unseal, buyer_count, seller,
}
use ares_energy_demo.Auction.Epoch.{ends_round}

-- How many peers sell.
abbrev pub seller_count : List Peer → ℕ
seller_count [] = 0
seller_count (p ∷ ps) = (if is_seller p.role then 1 else 0) + seller_count ps

-- The seats of the buyers, and of the peers that have sealed.
abbrev pub seats : List Peer → List ℤ
seats [] = []
seats (p ∷ ps) = if is_buyer p.role then p.seat ∷ seats ps else seats ps

abbrev pub sealed_seats : List Peer → List ℤ
sealed_seats [] = []
sealed_seats (p ∷ ps) = if p.sealed then p.seat ∷ sealed_seats ps else sealed_seats ps

-- A seat of the cohort.
abbrev pub InCohort : ℤ → Type 0
InCohort (pos n) = n < 5
InCohort (negsuc n) = ⊥

-- A buyer holds a seat of the cohort, and only buyers seal.
abbrev pub Seated : Peer → Type 0
Seated p = (is_buyer p.role ≡ true → InCohort p.seat) × (p.sealed ≡ true → is_buyer p.role ≡ true)

pub length-seats : (ps : List Peer) → length (seats ps) ≡ buyer_count ps
unfolding buyer_count
length-seats [] = refl
length-seats (p ∷ ps) = ground (arith, length-seats ps)

pub sealed-seats :
    (s : ℤ) (ps : List Peer) → All Seated ps → In s (sealed_seats ps) → In s (seats ps)
sealed-seats s [] a h = h
sealed-seats s (p ∷ ps) a h = ground (arith, sealed-seats s ps a.1, a.0)

pub ids-append : (ps qs : List Peer) → ids (ps ++ qs) ≡ ids ps ++ ids qs
ids-append [] qs = refl
ids-append (p ∷ ps) qs = ap (◌∷◌ p.id) (ids-append ps qs)

-- A peer with a new id goes last.
pub put_peer_new : (p : Peer) (ps : List Peer) → ¬ (In p.id (ids ps)) → put_peer p ps ≡ ps ++ p ∷ []
unfolding put_peer
put_peer_new p [] h = refl
put_peer_new p (q ∷ qs) h = ground (arith, nat_beq_iff q.id p.id, put_peer_new p qs)

module _ (p : Peer) where
  pub buyer_count-append :
      (ps : List Peer)
      → buyer_count (ps ++ p ∷ []) ≡ buyer_count ps + (if is_buyer p.role then 1 else 0)
  unfolding buyer_count
  buyer_count-append [] = ground arith
  buyer_count-append (q ∷ qs) = omega (arith, buyer_count-append qs)

  pub seller_count-append :
      (ps : List Peer)
      → seller_count (ps ++ p ∷ []) ≡ seller_count ps + (if is_seller p.role then 1 else 0)
  seller_count-append [] = ground arith
  seller_count-append (q ∷ qs) = omega (arith, seller_count-append qs)

  pub Seated-append : (ps : List Peer) → All Seated ps → Seated p → All Seated (ps ++ p ∷ [])
  Seated-append [] a s = (s, tt)
  Seated-append (q ∷ qs) a s = (a.0, Seated-append qs a.1 s)

  pub sealed_seats-append :
      (ps : List Peer) → p.sealed ≡ false → sealed_seats (ps ++ p ∷ []) ≡ sealed_seats ps
  sealed_seats-append [] h = ground arith
  sealed_seats-append (q ∷ qs) h = ground (arith, sealed_seats-append qs h)

pub seller-none : (ps : List Peer) → seller ps ≡ none → seller_count ps ≡ 0
unfolding seller
seller-none [] h = refl
seller-none (p ∷ ps) h = ground (arith, seller-none ps)

module _ (i : PeerId) where
  pub delete_peer_absent : (ps : List Peer) → ¬ (In i (ids ps)) → delete_peer i ps ≡ ps
  unfolding delete_peer
  delete_peer_absent [] h = refl
  delete_peer_absent (p ∷ ps) h = ground (arith, nat_beq_iff p.id i, delete_peer_absent ps)

  pub ids-delete_peer :
      (ps : List Peer) → Distinct (ids ps) → ids (delete_peer i ps) ≡ erase i (ids ps)
  unfolding delete_peer erase
  ids-delete_peer [] d = refl
  ids-delete_peer (p ∷ ps) d =
      ground (arith, nat_beq_iff p.id i, ids-delete_peer ps d.1, delete_peer_absent ps)

  pub buyer_count-delete_peer : (ps : List Peer) → buyer_count (delete_peer i ps) ≤ buyer_count ps
  unfolding delete_peer buyer_count
  buyer_count-delete_peer [] = omega arith
  buyer_count-delete_peer (p ∷ ps) = ground (arith, buyer_count-delete_peer ps)

  pub seller_count-delete_peer :
      (ps : List Peer) → seller_count (delete_peer i ps) ≤ seller_count ps
  unfolding delete_peer
  seller_count-delete_peer [] = omega arith
  seller_count-delete_peer (p ∷ ps) = ground (arith, seller_count-delete_peer ps)

  pub Seated-delete_peer : (ps : List Peer) → All Seated ps → All Seated (delete_peer i ps)
  unfolding delete_peer
  Seated-delete_peer [] a = tt
  Seated-delete_peer (p ∷ ps) a = ground (arith, Seated-delete_peer ps a.1)

  -- Losing a peer that had not sealed leaves the sealed seats.
  pub sealed_seats-delete_peer :
      (ps : List Peer)
      → Distinct (ids ps)
      → ends_round (find_peer i ps) ≡ false
      → sealed_seats (delete_peer i ps) ≡ sealed_seats ps
  unfolding delete_peer find_peer
  sealed_seats-delete_peer [] d h = refl
  sealed_seats-delete_peer (p ∷ ps) d h =
      ground (arith, nat_beq_iff p.id i, sealed_seats-delete_peer ps d.1, delete_peer_absent ps)

  pub ids-seal : (ps : List Peer) → ids (seal i ps) ≡ ids ps
  unfolding seal
  ids-seal [] = refl
  ids-seal (p ∷ ps) = ground (arith, ids-seal ps)

  pub buyer_count-seal : (ps : List Peer) → buyer_count (seal i ps) ≡ buyer_count ps
  unfolding seal buyer_count
  buyer_count-seal [] = refl
  buyer_count-seal (p ∷ ps) = ground (arith, buyer_count-seal ps)

  pub seller_count-seal : (ps : List Peer) → seller_count (seal i ps) ≡ seller_count ps
  unfolding seal
  seller_count-seal [] = refl
  seller_count-seal (p ∷ ps) = ground (arith, seller_count-seal ps)

  pub seats-seal : (ps : List Peer) → seats (seal i ps) ≡ seats ps
  unfolding seal
  seats-seal [] = refl
  seats-seal (p ∷ ps) = ground (arith, seats-seal ps)

  pub Seated-seal :
      (p : Peer) (ps : List Peer)
      → find_peer i ps ≡ some p
      → is_buyer p.role ≡ true
      → All Seated ps
      → All Seated (seal i ps)
  unfolding seal find_peer
  Seated-seal p [] f b a = tt
  Seated-seal p (q ∷ qs) f b a = ground (arith, Seated-seal p qs)

  -- Sealing adds the peer's seat.
  pub In-sealed_seats-seal :
      (s : ℤ) (p : Peer) (ps : List Peer)
      → find_peer i ps ≡ some p
      → In s (sealed_seats (seal i ps))
      → (p.seat ≡ s) ⊎ In s (sealed_seats ps)
  unfolding seal find_peer
  In-sealed_seats-seal s p [] f h = cc
  In-sealed_seats-seal s p (q ∷ qs) f h = ground (arith, In-sealed_seats-seal s p qs)

  pub sealed_seats-seal-In :
      (s : ℤ) (p : Peer) (ps : List Peer)
      → find_peer i ps ≡ some p
      → (p.seat ≡ s) ⊎ In s (sealed_seats ps)
      → In s (sealed_seats (seal i ps))
  unfolding seal find_peer
  sealed_seats-seal-In s p [] f h = cc
  sealed_seats-seal-In s p (q ∷ qs) f h = ground (arith, sealed_seats-seal-In s p qs)

pub find_peer-id : (i : PeerId) (p : Peer) (ps : List Peer) → find_peer i ps ≡ some p → p.id ≡ i
unfolding find_peer
find_peer-id i p [] f = cc
find_peer-id i p (q ∷ qs) f = ground (arith, nat_beq_iff q.id i, find_peer-id i p qs)

pub ids-unseal : (ps : List Peer) → ids (map unseal ps) ≡ ids ps
ids-unseal [] = refl
ids-unseal (p ∷ ps) = ap (◌∷◌ p.id) (ids-unseal ps)

pub buyer_count-unseal : (ps : List Peer) → buyer_count (map unseal ps) ≡ buyer_count ps
unfolding buyer_count
buyer_count-unseal [] = refl
buyer_count-unseal (p ∷ ps) = omega (arith, buyer_count-unseal ps)

pub seller_count-unseal : (ps : List Peer) → seller_count (map unseal ps) ≡ seller_count ps
seller_count-unseal [] = refl
seller_count-unseal (p ∷ ps) = omega (arith, seller_count-unseal ps)

pub sealed_seats-unseal : (ps : List Peer) → sealed_seats (map unseal ps) ≡ []
sealed_seats-unseal [] = refl
sealed_seats-unseal (p ∷ ps) = sealed_seats-unseal ps

pub Seated-unseal : (ps : List Peer) → All Seated ps → All Seated (map unseal ps)
Seated-unseal [] a = tt
Seated-unseal (p ∷ ps) a = ((a.0.0, λ h. cc), Seated-unseal ps a.1)
