-- ===== src/Auction/Reach.antt =====
-- The auction as a state machine: its methods run one at a time under the mutex, in any order that
-- the connections' goroutines bring about (examples/energy_auction/auction.go, main.go).
use ares_energy_demo.Prelude.{
  nat_eq, int_eq, ℕ, ℤ, ◌≡◌, refl, sym, ◌∙◌, ap, subst, Bool, true, false, List, some, arith, In,
  Distinct, erase, erase-Distinct, contains, inl, inr, is_negative, Bool-cases, ltb, ◌&&◌, rem,
  ◌+ℤ◌, length, leb, ◌||◌, pos, nat_beq,
}
use ares_energy_demo.Auction.State.{
  Bytes, Float64, PeerId, Peer, Trade, Auction, new_auction, is_buyer, is_bidding, is_open,
  is_audit, epoch_size,
}
use ares_energy_demo.Auction.Seats.{find_peer, buyer_count, join}
use ares_energy_demo.Auction.Round.{
  reset, set_hour, publish_keys, submit_bid, store_bid, close_bidding, set_masks, offer, settle,
  ready_epoch, log_trade, settled_trade,
}
use ares_energy_demo.Auction.Epoch.{
  ends_round, leave, remove_peer, end_round, check_audit, start_epoch_chain, advance_epoch_chain,
  submit_epoch_partial, submit_epoch_total, close_epoch, new_epoch, clear_epoch,
}
use ares_energy_demo.Auction.Peers.{
  find_peer-id, ids-delete_peer, seller_count-delete_peer, buyer_count-delete_peer,
  Seated-delete_peer, sealed_seats-delete_peer,
}
use ares_energy_demo.Auction.Bidding.{Admissible, submit_bid_cases}
use ares_energy_demo.Auction.Invariant.{
  Inv, Seating, new_auction-Inv, join-Inv, reset-Inv, set_hour-Inv, publish_keys-Inv,
  next_hour-InDay, store_bid-Ballot, seal-Seating,
}

-- Joining takes an id that is new; everything else may happen at any time.
pub data Step (a : Auction) : Auction → Type 0 where
  joins : (i : PeerId) → ¬ (In i a.order) → Step a (join a i)
  leaves : (i : PeerId) → Step a (leave a i)
  resets : Step a (reset a)
  sets_hour : (h : ℤ) → Step a (set_hour a h)
  publishes : (pk ek : Bytes) → Step a (publish_keys a pk ek)
  bids : (i : PeerId) (key_id : ℕ) (ct : Bytes) → Step a (submit_bid a i key_id ct).0
  masks : (ms : List Bytes) → Step a (set_masks a ms)
  offers : (seat : ℤ) (price : Float64) → Step a (offer a seat price)
  settles : (now : Bytes) (accepted : Bool) → Step a (settle a now accepted).0
  starts : Step a (start_epoch_chain a).0
  advances : (pk : Bytes) → Step a (advance_epoch_chain a pk).0
  adds_partial : (i : PeerId) (ct : Bytes) → Step a (submit_epoch_partial a i ct).0
  adds_total : (i : PeerId) (ct : Bytes) → Step a (submit_epoch_total a i ct).0
  closes : (net : Float64) (verdict : Bool) → Step a (close_epoch a net verdict)
  renews : Step a (new_epoch a)

pub data Reach : Auction → Type 0 where
  start : Reach new_auction
  next : {a b : Auction} → Reach a → Step a b → Reach b

pub store_bid-Inv :
    (a : Auction) (p : Peer) (ct : Bytes)
    → find_peer p.id a.peers ≡ some p
    → is_buyer p.role ≡ true
    → is_bidding a.phase ≡ true
    → Inv a
    → Inv (store_bid a p ct)
unfolding store_bid
store_bid-Inv a p ct f b ph v = record {
  seating = seal-Seating p.id p a.peers a.order f b v.seating;
  ballot = store_bid-Ballot a p.id p ct f v.ballot;
  day = v.day;
  quiet = λ q. absurd (ground arith);
  party_distinct = v.party_distinct;
}

close_bidding-Inv : (a : Auction) → Inv a → Inv (close_bidding a).0
unfolding close_bidding
close_bidding-Inv a v =
    elim (Bool-cases
      (ltb (length a.bids) (buyer_count a.peers) || nat_beq (buyer_count a.peers) 0)) [
        | inl e ↦ rw e v
        | inr e ↦ rw e (record {
          seating = v.seating;
          ballot = v.ballot;
          day = v.day;
          quiet = λ q. cc;
          party_distinct = v.party_distinct;
        })
      ]

pub admitted :
    (a : Auction) (i : PeerId) (key_id : ℕ) (p : Peer)
    → Admissible a i key_id p
    → find_peer p.id a.peers ≡ some p
admitted a i key_id p h =
    subst (λ z. find_peer z a.peers ≡ some p) (sym (find_peer-id i p a.peers h.found)) h.found

pub submit_bid-Inv :
    (a : Auction) (i : PeerId) (key_id : ℕ) (ct : Bytes) → Inv a → Inv (submit_bid a i key_id ct).0
submit_bid-Inv a i key_id ct v = elim (submit_bid_cases a i key_id ct) [
  | inl e ↦ rw e v
  | inr (p, h, e) ↦ rw e (
      close_bidding-Inv (store_bid a p ct)
        (store_bid-Inv a p ct (admitted a i key_id p h) h.buyer h.bidding v))
]

ready_epoch-Inv : (a : Auction) → Inv a → Inv (ready_epoch a)
unfolding ready_epoch
ready_epoch-Inv a v = elim (Bool-cases (is_open a.epoch && leb epoch_size (length a.trades))) [
  | inl e ↦ rw e (v)
  | inr e ↦ rw e v
]

log_trade-Inv : (a : Auction) (t : Trade) → Inv a → Inv (log_trade a t)
unfolding log_trade
log_trade-Inv a t v =
    let w =
      reset-Inv (record a { hour = rem (a.hour +ℤ pos 1) 24 }) v.seating
        (next_hour-InDay a.hour v.day) v.party_distinct in
    record {
      seating = w.seating;
      ballot = w.ballot;
      day = w.day;
      quiet = λ q. w.quiet refl;
      party_distinct = w.party_distinct;
    }

settle-Inv : (a : Auction) (now : Bytes) (accepted : Bool) → Inv a → Inv (settle a now accepted).0
unfolding settle
settle-Inv a now accepted v = elim (Bool-cases (is_negative a.winner_seat)) [
  | inl e ↦ rw e v
  | inr e ↦ rw e (
      ready_epoch-Inv (log_trade a (settled_trade a now accepted))
        (log_trade-Inv a (settled_trade a now accepted) v))
]

remove_peer-Seating :
    (a : Auction) (i : PeerId)
    → Seating a.peers a.order
    → Seating (remove_peer a i).peers (remove_peer a i).order
unfolding remove_peer
remove_peer-Seating a i v = record {
  joined =
      ids-delete_peer i a.peers (subst Distinct (sym v.joined) v.distinct) ∙ ap (erase i) v.joined;
  distinct = erase-Distinct i a.order v.distinct;
  one_seller = omega (arith, seller_count-delete_peer i a.peers, v.one_seller);
  cohort = omega (arith, buyer_count-delete_peer i a.peers, v.cohort);
  seated = Seated-delete_peer i a.peers v.seated;
}

-- A peer whose loss does not end the round leaves the ballot as it is.
remove_peer-Inv :
    (a : Auction) (i : PeerId)
    → ends_round (find_peer i a.peers) ≡ false
    → Inv a
    → Inv (remove_peer a i)
unfolding remove_peer
remove_peer-Inv a i e v = record {
  seating = unfold remove_peer in remove_peer-Seating a i v.seating;
  ballot =
      rw
        (sealed_seats-delete_peer i a.peers
          (subst Distinct (sym v.seating.joined) v.seating.distinct) e)
        v.ballot;
  day = v.day;
  quiet = v.quiet;
  party_distinct = v.party_distinct;
}

end_round-Inv :
    (a : Auction) (i : PeerId) → Inv a → Inv (end_round (remove_peer a i) (find_peer i a.peers))
unfolding end_round
end_round-Inv a i v = elim (Bool-cases (ends_round (find_peer i a.peers))) [
  | inl e ↦ rw e (
      reset-Inv (remove_peer a i) (remove_peer-Seating a i v.seating) (unfold remove_peer in v.day)
        (unfold remove_peer in v.party_distinct))
  | inr e ↦ rw e (remove_peer-Inv a i e v)
]

check_audit-Inv : (a : Auction) (i : PeerId) → Inv a → Inv (check_audit a i)
unfolding check_audit
check_audit-Inv a i v = elim (Bool-cases (is_audit a.epoch && contains a.epoch_party i)) [
  | inl e ↦ rw e (record {
    seating = v.seating;
    ballot = v.ballot;
    day = v.day;
    quiet = v.quiet;
    party_distinct = tt;
  })
  | inr e ↦ rw e v
]

pub leave-Inv : (a : Auction) (i : PeerId) → Inv a → Inv (leave a i)
unfolding leave
leave-Inv a i v =
    check_audit-Inv (end_round (remove_peer a i) (find_peer i a.peers)) i (end_round-Inv a i v)

start_epoch_chain-Inv : (a : Auction) → Inv a → Inv (start_epoch_chain a).0
unfolding start_epoch_chain
start_epoch_chain-Inv a v = elim (Bool-cases (is_audit a.epoch)) [
  | inl e ↦ rw e v
  | inr e ↦ rw e (record {
    seating = v.seating;
    ballot = v.ballot;
    day = v.day;
    quiet = v.quiet;
    party_distinct = v.seating.distinct;
  })
]

submit_epoch_total-Inv :
    (a : Auction) (i : PeerId) (ct : Bytes) → Inv a → Inv (submit_epoch_total a i ct).0
unfolding submit_epoch_total
submit_epoch_total-Inv a i ct v = elim (Bool-cases (is_audit a.epoch)) [
  | inl e ↦ rw e (v)
  | inr e ↦ rw e v
]

new_epoch-Inv : (a : Auction) → Inv a → Inv (new_epoch a)
unfolding new_epoch clear_epoch
new_epoch-Inv a v = reset-Inv (clear_epoch a) v.seating v.day tt

-- Every method keeps the invariant.
pub Step-Inv : {a b : Auction} → Inv a → Step a b → Inv b
unfolding set_masks offer advance_epoch_chain submit_epoch_partial close_epoch
Step-Inv {a} v (joins i fresh) = join-Inv a i fresh v
Step-Inv {a} v (leaves i) = leave-Inv a i v
Step-Inv {a} v resets = reset-Inv a v.seating v.day v.party_distinct
Step-Inv {a} v (sets_hour h) = set_hour-Inv a h v
Step-Inv {a} v (publishes pk ek) = publish_keys-Inv a pk ek v
Step-Inv {a} v (bids i key_id ct) = submit_bid-Inv a i key_id ct v
Step-Inv {a} v (masks ms) = record {
  seating = v.seating;
  ballot = v.ballot;
  day = v.day;
  quiet = λ q. cc;
  party_distinct = v.party_distinct;
}
Step-Inv {a} v (offers seat price) = record {
  seating = v.seating;
  ballot = v.ballot;
  day = v.day;
  quiet = λ q. cc;
  party_distinct = v.party_distinct;
}
Step-Inv {a} v (settles now accepted) = settle-Inv a now accepted v
Step-Inv {a} v starts = start_epoch_chain-Inv a v
Step-Inv {a} v (advances pk) = v
Step-Inv {a} v (adds_partial i ct) = v
Step-Inv {a} v (adds_total i ct) = submit_epoch_total-Inv a i ct v
Step-Inv {a} v (closes net verdict) = v
Step-Inv {a} v renews = new_epoch-Inv a v

-- In every state that the methods lead to, in whatever order they are called, the peers stand in
-- joining order under distinct ids with at most one seller and at most five buyers, each buyer in a
-- seat from 0 to 4; there is one bid for each seat of a peer that has sealed and no other, and none
-- while waiting or settled; the hour is one of 0 to 23; and the audit's party has no peer twice.
pub Reach-Inv : {a : Auction} → Reach a → Inv a
Reach-Inv start = new_auction-Inv
Reach-Inv (next r s) = Step-Inv (Reach-Inv r) s
