-- ===== src/Auction/Delivery.antt =====
-- Who receives what from the auction: OrderedBids, Evaluator and PeerAtSeat of
-- examples/energy_auction/auction.go.
use ares_energy_demo.Prelude.{
  nat_eq, int_eq, nat_beq_iff, int_beq_iff, ℕ, zero, suc, ◌+◌, ◌≤◌, ◌<◌, ℤ, pos, negsuc, ◌≡◌, refl,
  sym, ◌∙◌, ap, subst, true, List, [], ◌∷◌, map, Option, none, some, arith, In, Distinct, keys,
  lookup, In-lookup, inl, inr, ◌⊎◌, Bool-cases, Option-cases, nat_beq, All,
}
use ares_energy_demo.Auction.State.{Bytes, PeerId, Peer, Auction, is_buyer}
use ares_energy_demo.Auction.Seats.{
  ids, find_peer, buyer_count, buyer_of, first_buyer, evaluator, buyer_at, peer_at_seat,
}
use ares_energy_demo.Auction.Round.{bids_from, ordered_bids}
use ares_energy_demo.Auction.Peers.{Seated, InCohort, seats, sealed-seats, find_peer-id}
use ares_energy_demo.Auction.Invariant.{Inv}

abbrev cts : List (Bytes × ℤ) → List Bytes
cts = map λ b. b.0

abbrev spots : List (Bytes × ℤ) → List ℤ
spots = map λ b. b.1

-- Each round of the loop sends the bid of its seat, if there is one.
bids_from-lookup :
    (bids : List (ℤ × Bytes)) (n seat : ℕ)
    → map (λ s. lookup s bids) (spots (bids_from bids n seat))
      ≡ map some (cts (bids_from bids n seat))
unfolding bids_from
bids_from-lookup bids zero seat = refl
bids_from-lookup bids (suc n) seat = elim (Option-cases (lookup (pos seat) bids)) [
  | inl e ↦ rw (e, bids_from) (bids_from-lookup bids n (suc seat))
  | inr (ct, e) ↦ rw (e, bids_from) (cc (e, bids_from-lookup bids n (suc seat)))
]

-- Increasing seats, from a bound on.
abbrev pub Above : ℕ → List ℤ → Type 0
Above n [] = Unit {0}
Above n (pos s ∷ ss) = (n ≤ s) × Above (suc s) ss
Above n (negsuc s ∷ ss) = ⊥

Above-weaken : (m n : ℕ) (ss : List ℤ) → m ≤ n → Above n ss → Above m ss
Above-weaken m n [] h a = tt
Above-weaken m n (pos s ∷ ss) h a = (omega arith, a.1)
Above-weaken m n (negsuc s ∷ ss) h a = a

bids_from-Above :
    (bids : List (ℤ × Bytes)) (n seat : ℕ) → Above seat (spots (bids_from bids n seat))
unfolding bids_from
bids_from-Above bids zero seat = tt
bids_from-Above bids (suc n) seat = elim (Option-cases (lookup (pos seat) bids)) [
  | inl e ↦
      rw (e, bids_from)
        (Above-weaken seat (suc seat) _ (omega arith) (bids_from-Above bids n (suc seat)))
  | inr (ct, e) ↦ rw (e, bids_from) (omega arith, bids_from-Above bids n (suc seat))
]

-- Every bid in one of the seats of the loop is sent.
bids_from-all :
    (bids : List (ℤ × Bytes)) (n seat s : ℕ)
    → seat ≤ s
    → s < seat + n
    → In (pos s) (keys bids)
    → In (pos s) (spots (bids_from bids n seat))
unfolding bids_from
bids_from-all bids zero seat s h k m = absurd (omega arith)
bids_from-all bids (suc n) seat s h k m = elim (Option-cases (lookup (pos seat) bids)) [
  | inl e ↦ rw (e, bids_from) (bids_from-all bids n (suc seat) s (later e) (omega arith) m)
  | inr (ct, e) ↦
      rw (e, bids_from)
        (elim (Bool-cases (nat_beq seat s)) [
          | inl q ↦ inl (ap pos ((nat_beq_iff seat s).0 q))
          | inr q ↦ inr (bids_from-all bids n (suc seat) s (ground (arith, q)) (omega arith) m)
        ])
]
  where
    later : lookup (pos seat) bids ≡ none → suc seat ≤ s
    later e = elim (Bool-cases (nat_beq seat s)) [
      | inr q ↦ ground (arith, q)
      | inl q ↦
          let (ct, found) = In-lookup (pos s) bids m in
          absurd (ground (arith, e, found, nat_beq_iff seat s))
    ]

seats-InCohort : (s : ℤ) (ps : List Peer) → All Seated ps → In s (seats ps) → InCohort s
seats-InCohort s [] a m = absurd m
seats-InCohort s (p ∷ ps) a m = elim (Bool-cases (is_buyer p.role)) [
  | inr e ↦ seats-InCohort s ps a.1 (ground (arith, e, m))
  | inl e ↦ elim (here_or_later s p ps e m) [
    | inl q ↦ subst InCohort q (a.0.0 e)
    | inr l ↦ seats-InCohort s ps a.1 l
  ]
]
  where
    here_or_later :
        (s : ℤ) (p : Peer) (ps : List Peer)
        → is_buyer p.role ≡ true
        → In s (seats (p ∷ ps))
        → (p.seat ≡ s) ⊎ In s (seats ps)
    here_or_later s p ps e m = ground (arith, e, m)

-- In a state that respects the invariant the sealed bids go out once each, in increasing order of
-- the seats 0 to 4, every ciphertext in the place of its seat, and none is left out.
pub ordered_bids_lem :
    (a : Auction)
    → Inv a
    → (map (λ s. lookup s a.bids) (ordered_bids a).1 ≡ map some (ordered_bids a).0)
      × Above 0 (ordered_bids a).1
      × ((s : ℤ) → In s (keys a.bids) → In s (ordered_bids a).1)
unfolding ordered_bids
ordered_bids_lem a v = (
  bids_from-lookup a.bids 5 0,
  bids_from-Above a.bids 5 0,
  λ s m. sent s m (
      seats-InCohort s a.peers v.seating.seated
        (sealed-seats s a.peers v.seating.seated (v.ballot.of_sealed s m))),
)
  where
    sent : (s : ℤ) → In s (keys a.bids) → InCohort s → In s (spots (bids_from a.bids 5 0))
    sent (pos s) m h = bids_from-all a.bids 5 0 s (omega arith) (omega arith) m
    sent (negsuc s) m h = absurd h

buyer_of-some :
    (o : Option Peer) (q : Peer) → buyer_of o ≡ some q → (o ≡ some q) × (is_buyer q.role ≡ true)
buyer_of-some none q h = cc
buyer_of-some (some p) q h = ground arith

first_buyer-is_buyer :
    (ps : List Peer) (is : List PeerId) (p : Peer)
    → first_buyer ps is ≡ some p
    → (is_buyer p.role ≡ true) × ((i : PeerId) × In i is × (find_peer i ps ≡ some p))
unfolding first_buyer
first_buyer-is_buyer ps [] p h = cc
first_buyer-is_buyer ps (i ∷ is) p h = elim (Option-cases (buyer_of (find_peer i ps))) [
  | inl e ↦
      let r = first_buyer-is_buyer ps is p (rw (e, first_buyer) at h) in
      (r.0, (r.1.0, inr r.1.1, r.1.2))
  | inr (q, e) ↦
      let found = buyer_of-some (find_peer i ps) p (e ∙ (rw (e, first_buyer) at h)) in
      (found.1, (i, inl refl, found.0))
]

first_buyer-exists :
    (ps : List Peer) (is : List PeerId) (i : PeerId) (q : Peer)
    → In i is
    → find_peer i ps ≡ some q
    → is_buyer q.role ≡ true
    → (p : Peer) × (first_buyer ps is ≡ some p)
unfolding first_buyer
first_buyer-exists ps [] i q m f b = absurd m
first_buyer-exists ps (j ∷ js) i q m f b = elim (Option-cases (buyer_of (find_peer j ps))) [
  | inr (p, e) ↦ (p, rw (e, first_buyer) refl)
  | inl e ↦ elim m [
    | inl same ↦ absurd (ground (arith, e, f, b, same))
    | inr later ↦ let (p, g) = first_buyer-exists ps js i q later f b in (p, rw (e, first_buyer) g)
  ]
]

buyer_present :
    (ps : List Peer)
    → Distinct (ids ps)
    → 0 < buyer_count ps
    → (q : Peer) × In q.id (ids ps) × (find_peer q.id ps ≡ some q) × (is_buyer q.role ≡ true)
unfolding buyer_count find_peer
buyer_present [] d h = absurd (omega arith)
buyer_present (p ∷ ps) d h = elim (Bool-cases (is_buyer p.role)) [
  | inl e ↦ (p, inl refl, ground (arith, nat_beq_iff p.id p.id), e)
  | inr e ↦
      let (q, m, f, b) = buyer_present ps d.1 (ground (arith, h)) in
      (
        q,
        inr m,
        ground
            (arith, nat_beq_iff p.id q.id, d.0, subst (λ z. In z (ids ps)) {x = q.id} {y = p.id}),
        b,
      )
]

-- In a state that respects the invariant, whenever a buyer is seated there is an evaluator, and
-- it is a buyer that is present.
evaluator_exists :
    (a : Auction)
    → Inv a
    → 0 < buyer_count a.peers
    → (p : Peer) × (evaluator a ≡ some p)
      × (is_buyer p.role ≡ true)
      × ((i : PeerId) × In i a.order × (find_peer i a.peers ≡ some p))
unfolding evaluator
evaluator_exists a v h =
    let (q, m, f, b) =
      buyer_present a.peers (subst Distinct (sym v.seating.joined) v.seating.distinct) h in
    let (p, e) =
      first_buyer-exists a.peers a.order q.id q (subst (In q.id) v.seating.joined m) f b in
    let r = first_buyer-is_buyer a.peers a.order p e in (p, e, r.0, r.1)

seat-In :
    (i : PeerId) (p : Peer) (ps : List Peer)
    → find_peer i ps ≡ some p
    → is_buyer p.role ≡ true
    → In p.seat (seats ps)
unfolding find_peer
seat-In i p [] f b = absurd (ground (arith, f))
seat-In i p (q ∷ qs) f b = ground (arith, seat-In i p qs)

buyer_at_unique :
    (i : PeerId) (p : Peer) (ps : List Peer)
    → Distinct (seats ps)
    → find_peer i ps ≡ some p
    → is_buyer p.role ≡ true
    → buyer_at p.seat ps ≡ some p
unfolding buyer_at find_peer
buyer_at_unique i p [] d f b = cc
buyer_at_unique i p (q ∷ qs) d f b = ground (
  arith,
  nat_beq_iff q.id i,
  int_beq_iff q.seat p.seat,
  buyer_at_unique i p qs,
  seat-In i p qs,
  subst (λ s. In s (seats qs)) {x = p.seat} {y = q.seat},
)

-- Where no two buyers share a seat, the id that is looked up for a buyer's seat is that buyer's.
peer_at_seat_unique :
    (a : Auction) (i : PeerId) (p : Peer)
    → Distinct (seats a.peers)
    → find_peer i a.peers ≡ some p
    → is_buyer p.role ≡ true
    → peer_at_seat a p.seat ≡ some i
unfolding peer_at_seat
peer_at_seat_unique a i p d f b =
    ground (arith, buyer_at_unique i p a.peers d f b, find_peer-id i p a.peers f)
