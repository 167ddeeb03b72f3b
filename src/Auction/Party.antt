-- ===== src/Auction/Party.antt =====
-- The party of a running audit in examples/energy_auction/auction.go, whatever else happens.
use ares_energy_demo.Prelude.{
  nat_eq, ℕ, ◌≡◌, refl, sym, ◌≢◌, subst, Bool, true, ◌&&◌, List, [], ◌∷◌, ◌++◌, arith, In, inl, inr,
  Bool-cases, length, contains, erase, In→contains, In-erase_ne, leb, is_negative,
}
use ares_energy_demo.Auction.State.{
  Bytes, PeerId, Auction, is_audit, is_open, epoch_size, new_auction,
}
use ares_energy_demo.Auction.Seats.{join, find_peer}
use ares_energy_demo.Auction.Round.{
  submit_bid, reset, set_hour, publish_keys, set_masks, offer, settle, log_trade, ready_epoch,
  settled_trade, close_bidding, store_bid,
}
use ares_energy_demo.Auction.Epoch.{
  leave, remove_peer, end_round, check_audit, abort_audit, start_epoch_chain, open_audit,
  advance_epoch_chain, submit_epoch_partial, submit_epoch_total, close_epoch, new_epoch,
  clear_epoch,
}
use ares_energy_demo.Auction.Bidding.{submit_bid_cases}
use ares_energy_demo.Auction.Reach.{
  Step, Reach, start, next, joins, leaves, resets, sets_hour, publishes, bids, masks, offers,
  settles, starts, advances, adds_partial, adds_total, closes, renews,
}

-- What a method does to the audit: nothing, or nothing but to end or to begin it.
abbrev pub SameAudit : Auction → Auction → Type 0
SameAudit a b =
    (b.epoch ≡ a.epoch)
    × (b.epoch_party ≡ a.epoch_party)
    × (b.order ≡ a.order)
    × (b.trades ≡ a.trades)

close_bidding-SameAudit : (a : Auction) → SameAudit a (close_bidding a).0
unfolding close_bidding
close_bidding-SameAudit a = ground arith

pub submit_bid-SameAudit :
    (a : Auction) (i : PeerId) (key_id : ℕ) (ct : Bytes) → SameAudit a (submit_bid a i key_id ct).0
unfolding store_bid
submit_bid-SameAudit a i key_id ct = elim (submit_bid_cases a i key_id ct) [
  | inl e ↦ rw e (refl, refl, refl, refl)
  | inr (p, h, e) ↦ rw e (close_bidding-SameAudit (store_bid a p ct))
]

-- Every member of the party of a running audit is present.
abbrev Present : Auction → Type 0
Present a = is_audit a.epoch ≡ true → (i : PeerId) → In i a.epoch_party → In i a.order

In-append_left : (i j : PeerId) (xs : List PeerId) → In i xs → In i (xs ++ j ∷ [])
In-append_left i j [] h = absurd h
In-append_left i j (x ∷ xs) h = ground (arith, In-append_left i j xs)

pub end_round-order :
    (a : Auction) (i : PeerId)
    → let b = end_round (remove_peer a i) (find_peer i a.peers) in
      (b.order ≡ erase i a.order) × (b.epoch ≡ a.epoch) × (b.epoch_party ≡ a.epoch_party)
unfolding end_round remove_peer
end_round-order a i = ground arith

same-Present : (a b : Auction) → SameAudit a b → Present a → Present b
same-Present a b (e, party, order, _) h t i m =
    subst (In i) (sym order) (h (subst (λ x. is_audit x ≡ true) e t) i (subst (In i) party m))

-- A member that leaves ends the audit, and nobody else's leaving touches the party.
check_audit-Present :
    (b : Auction) (i : PeerId)
    → (is_audit b.epoch ≡ true → (j : PeerId) → In j b.epoch_party → i ≢ j → In j b.order)
    → Present (check_audit b i)
unfolding check_audit abort_audit
check_audit-Present b i h = elim (Bool-cases (is_audit b.epoch)) [
  | inr e ↦ rw e (λ t. absurd (ground arith))
  | inl e ↦ elim (Bool-cases (contains b.epoch_party i)) [
    | inl c ↦ rw (e, c) (λ t. cc)
    | inr c ↦
        rw (e, c)
          λ t j m. h e j m (λ (q : i ≡ j).
            ground (arith, In→contains b.epoch_party i (subst (λ z. In z b.epoch_party) (sym q) m)))
  ]
]

leave-Present : (a : Auction) (i : PeerId) → Present a → Present (leave a i)
unfolding leave
leave-Present a i h =
    let (order, e, party) = end_round-order a i in
    check_audit-Present (end_round (remove_peer a i) (find_peer i a.peers)) i λ t j m ne.
      subst (In j) (sym order) (
        In-erase_ne i j a.order ne
          (h (subst (λ x. is_audit x ≡ true) e t) j (subst (In j) party m)))

ready_epoch-Present : (a : Auction) → Present a → Present (ready_epoch a)
unfolding ready_epoch
ready_epoch-Present a h = elim (Bool-cases (is_open a.epoch && leb epoch_size (length a.trades))) [
  | inl e ↦ rw e (λ t. absurd (ground arith))
  | inr e ↦ rw e h
]

settle-Present :
    (a : Auction) (now : Bytes) (accepted : Bool) → Present a → Present (settle a now accepted).0
unfolding settle log_trade
settle-Present a now accepted h = elim (Bool-cases (is_negative a.winner_seat)) [
  | inl e ↦ rw e h
  | inr e ↦ rw e (ready_epoch-Present (log_trade a (settled_trade a now accepted)) h)
]

start-Present : (a : Auction) → Present a → Present (start_epoch_chain a).0
unfolding start_epoch_chain open_audit
start-Present a h = elim (Bool-cases (is_audit a.epoch)) [
  | inl e ↦ rw e h
  | inr e ↦ rw e (λ t i m. m)
]

total-Present :
    (a : Auction) (i : PeerId) (ct : Bytes) → Present a → Present (submit_epoch_total a i ct).0
unfolding submit_epoch_total
total-Present a i ct h = elim (Bool-cases (is_audit a.epoch)) [ inl e ↦ rw e h | inr e ↦ rw e h ]

Step-Present : {a b : Auction} → Present a → Step a b → Present b
unfolding reset set_hour publish_keys set_masks offer start_epoch_chain advance_epoch_chain
    submit_epoch_partial submit_epoch_total close_epoch new_epoch clear_epoch join
Step-Present {a} h (joins j fresh) = λ e i m. In-append_left i j a.order (h e i m)
Step-Present {a} h (leaves i) = leave-Present a i h
Step-Present {a} h resets = h
Step-Present {a} h (sets_hour t) = h
Step-Present {a} h (publishes pk ek) = h
Step-Present {a} h (bids i key_id ct) =
    same-Present a (submit_bid a i key_id ct).0 (submit_bid-SameAudit a i key_id ct) h
Step-Present {a} h (masks ms) = h
Step-Present {a} h (offers seat price) = h
Step-Present {a} h (settles now accepted) = settle-Present a now accepted h
Step-Present {a} h starts = start-Present a h
Step-Present {a} h (advances pk) = h
Step-Present {a} h (adds_partial i ct) = h
Step-Present {a} h (adds_total i ct) = total-Present a i ct h
Step-Present {a} h (closes net verdict) = λ e. cc
Step-Present {a} h renews = λ e. cc

-- Whatever the tabs do, while an audit runs every member of its party is connected: nobody waits for
-- the share of a tab that is gone.
pub audit_party_present :
    {a : Auction}
    → Reach a
    → is_audit a.epoch ≡ true
    → (i : PeerId) → In i a.epoch_party
    → In i a.order
unfolding new_auction
audit_party_present start = λ e. cc
audit_party_present (next r s) = Step-Present (audit_party_present r) s
