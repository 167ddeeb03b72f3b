-- ===== src/Auction/Provenance.antt =====
-- Where the bids of a round come from, and what settling a round leaves behind
-- (examples/energy_auction/auction.go).
use ares_energy_demo.Prelude.{
  nat_eq, int_eq, int_beq_iff, ℕ, ℤ, negsuc, ◌≡◌, refl, sym, ◌≢◌, ◌∙◌, ap, subst, ◌==◌, Bool, true,
  false, [], ◌∷◌, some, length, pos, rem, ◌+ℤ◌, arith, inl, inr, ◌⊎◌, Bool-cases, lookup,
  lookup-insert, is_negative,
}
use ares_energy_demo.Auction.State.{Bytes, PeerId, Peer, Trade, Auction, is_buyer, is_bidding}
use ares_energy_demo.Auction.Seats.{join, find_peer}
use ares_energy_demo.Auction.Round.{
  submit_bid, store_bid, close_bidding, bid_rejected, reset, set_hour, next_key_id, publish_keys,
  set_masks, offer, settle, log_trade, ready_epoch, settled_trade,
}
use ares_energy_demo.Auction.Epoch.{
  leave, remove_peer, end_round, check_audit, start_epoch_chain, advance_epoch_chain,
  submit_epoch_partial, submit_epoch_total, close_epoch, new_epoch, clear_epoch,
}
use ares_energy_demo.Auction.Bidding.{Admissible, submit_bid_cases}
use ares_energy_demo.Auction.Reach.{
  Step, joins, leaves, resets, sets_hour, publishes, bids, masks, offers, settles, starts, advances,
  adds_partial, adds_total, closes, renews,
}

-- The peer `i` submits the bid `ct` and names the key `key_id`: the peer is a buyer in the seat `s`,
-- the phase is bidding, and the key that it names is the current one.
abbrev pub Sends : Auction → PeerId → ℕ → Bytes → ℤ → Bytes → Type 0
Sends a i key_id sent s ct =
    (sent ≡ ct)
    × (p : Peer) × (find_peer i a.peers ≡ some p)
    × (is_buyer p.role ≡ true)
    × (p.seat ≡ s)
    × (is_bidding a.phase ≡ true)
    × (key_id ≡ a.key_id)

-- The call brings the bid `ct` of the seat `s`: only a call of SubmitBid can.
abbrev pub Brings : {a b : Auction} → Step a b → ℤ → Bytes → Type 0
Brings {a} (bids i key_id sent) s ct = Sends a i key_id sent s ct
Brings _ s ct = ⊥

-- After the call the key is as before, and the bid `ct` of the seat `s` was held before the call or
-- is the one that it brings.
abbrev pub Source : {a b : Auction} → Step a b → ℤ → Bytes → Type 0
Source {a} {b} step s ct = (b.key_id ≡ a.key_id) × ((lookup s a.bids ≡ some ct) ⊎ Brings step s ct)

same-Source :
    {Brought : Type 0} (a b : Auction) (s : ℤ) (ct : Bytes)
    → b.key_id ≡ a.key_id
    → (b.bids ≡ a.bids) ⊎ (b.bids ≡ [])
    → lookup s b.bids ≡ some ct
    → (b.key_id ≡ a.key_id) × ((lookup s a.bids ≡ some ct) ⊎ Brought)
unfolding lookup
same-Source a b s ct k (inl e) h = (k, inl (subst (λ m. lookup s m ≡ some ct) e h))
same-Source a b s ct k (inr e) h = absurd (ground (arith, subst (λ m. lookup s m ≡ some ct) e h))

close_bidding-bids :
    (a : Auction) → ((close_bidding a).0.bids ≡ a.bids) × ((close_bidding a).0.key_id ≡ a.key_id)
unfolding close_bidding
close_bidding-bids a = ground arith

stored-Source :
    (a : Auction) (i : PeerId) (key_id : ℕ) (p : Peer) (s : ℤ) (ct sent : Bytes)
    → Admissible a i key_id p
    → lookup s (store_bid a p sent).bids ≡ some ct
    → (lookup s a.bids ≡ some ct) ⊎ Sends a i key_id sent s ct
unfolding store_bid
stored-Source a i key_id p s ct sent ok h = elim (Bool-cases (p.seat == s)) [
  | inl e ↦ inr (
    ground (arith, e, h, lookup-insert p.seat s sent a.bids),
    p,
    ok.found,
    ok.buyer,
    (int_beq_iff p.seat s).0 e,
    ok.bidding,
    ok.current,
  )
  | inr e ↦ inl (ground (arith, lookup-insert p.seat s sent a.bids))
]

bid-Source :
    (a : Auction) (i : PeerId) (key_id : ℕ) (sent : Bytes) (s : ℤ) (ct : Bytes)
    → lookup s (submit_bid a i key_id sent).0.bids ≡ some ct
    → ((submit_bid a i key_id sent).0.key_id ≡ a.key_id)
      × ((lookup s a.bids ≡ some ct) ⊎ Sends a i key_id sent s ct)
unfolding store_bid
bid-Source a i key_id sent s ct h = elim (submit_bid_cases a i key_id sent) [
  | inl e ↦
      same-Source a (submit_bid a i key_id sent).0 s ct (ap (λ r. r.0.key_id) e)
        (inl (ap (λ r. r.0.bids) e)) h
  | inr (p, ok, e) ↦
      let (held, key) = close_bidding-bids (store_bid a p sent) in
      (
        ap (λ r. r.0.key_id) e ∙ key,
        stored-Source a i key_id p s ct sent ok
            (subst (λ m. lookup s m ≡ some ct) (ap (λ r. r.0.bids) e ∙ held) h),
      )
]

leave-bids :
    (a : Auction) (i : PeerId)
    → ((leave a i).key_id ≡ a.key_id) × (((leave a i).bids ≡ a.bids) ⊎ ((leave a i).bids ≡ []))
unfolding leave check_audit end_round remove_peer
leave-bids a i = (ground arith, ground arith)

settle-bids :
    (a : Auction) (now : Bytes) (accepted : Bool)
    → ((settle a now accepted).0.key_id ≡ a.key_id)
      × (((settle a now accepted).0.bids ≡ a.bids) ⊎ ((settle a now accepted).0.bids ≡ []))
unfolding settle log_trade ready_epoch
settle-bids a now accepted = (ground arith, ground arith)

audit-bids :
    (a : Auction) (i : PeerId) (ct : Bytes)
    → ((start_epoch_chain a).0.key_id ≡ a.key_id)
      × ((start_epoch_chain a).0.bids ≡ a.bids)
      × ((submit_epoch_total a i ct).0.key_id ≡ a.key_id)
      × ((submit_epoch_total a i ct).0.bids ≡ a.bids)
unfolding start_epoch_chain submit_epoch_total
audit-bids a i ct = (ground arith, ground arith, ground arith, ground arith)

-- A bid that is held after a call of any method was held before it, under the same current key, or
-- is the very ciphertext that the call, a SubmitBid in the bidding phase which names the current key,
-- has just brought from the buyer in its seat.
pub bids_under_current_key :
    {a b : Auction} (step : Step a b) (s : ℤ) (ct : Bytes)
    → lookup s b.bids ≡ some ct
    → Source step s ct
unfolding reset set_hour publish_keys set_masks offer advance_epoch_chain submit_epoch_partial
    close_epoch new_epoch clear_epoch join lookup
bids_under_current_key {a} (joins j fresh) s ct h = (refl, inl h)
bids_under_current_key {a} (leaves i) s ct h =
    same-Source a (leave a i) s ct (leave-bids a i).0 (leave-bids a i).1 h
bids_under_current_key {a} resets s ct h = absurd (ground (arith, h))
bids_under_current_key {a} (sets_hour t) s ct h = absurd (ground (arith, h))
bids_under_current_key {a} (publishes pk ek) s ct h = absurd (ground (arith, h))
bids_under_current_key {a} (bids i key_id ct') s ct h = bid-Source a i key_id ct' s ct h
bids_under_current_key {a} (masks ms) s ct h = (refl, inl h)
bids_under_current_key {a} (offers seat price) s ct h = (refl, inl h)
bids_under_current_key {a} (settles now accepted) s ct h =
    same-Source a (settle a now accepted).0 s ct (settle-bids a now accepted).0
      (settle-bids a now accepted).1 h
bids_under_current_key {a} starts s ct h =
    same-Source a (start_epoch_chain a).0 s ct (audit-bids a 0 []).0 (inl (audit-bids a 0 []).1) h
bids_under_current_key {a} (advances pk) s ct h = (refl, inl h)
bids_under_current_key {a} (adds_partial i ct') s ct h = (refl, inl h)
bids_under_current_key {a} (adds_total i ct') s ct h =
    same-Source a (submit_epoch_total a i ct').0 s ct (audit-bids a i ct').2
      (inl (audit-bids a i ct').3) h
bids_under_current_key {a} (closes net verdict) s ct h = (refl, inl h)
bids_under_current_key {a} renews s ct h = absurd (ground (arith, h))

next_key_id-ne : (k : ℕ) → next_key_id k ≢ k
unfolding next_key_id
next_key_id-ne k = omega arith

-- A bid that names the key before the one just published is refused, whoever sends it, and changes
-- nothing; the key's 64-bit counter may even have wrapped.
publish_voids_old_key :
    (a : Auction) (pk ek : Bytes) (i : PeerId) (ct : Bytes)
    → submit_bid (publish_keys a pk ek) i a.key_id ct ≡ (publish_keys a pk ek, bid_rejected)
unfolding publish_keys
publish_voids_old_key a pk ek i ct = elim (submit_bid_cases (publish_keys a pk ek) i a.key_id ct) [
  | inl e ↦ e
  | inr (p, ok, e) ↦ absurd (next_key_id-ne a.key_id (sym ok.current))
]

-- A round that has a winner is logged once: settling returns the winner's seat, puts one trade on
-- top of the log, with the given time and answer and the round's hour, price, number of bids and
-- winning seat, drops the bids and moves on to the next hour of the day; settling again returns -1
-- and changes nothing.
pub settle_logs_once :
    (a : Auction) (now later : Bytes) (accepted again : Bool)
    → is_negative a.winner_seat ≡ false
    → let b = (settle a now accepted).0 in
      ((settle a now accepted).1 ≡ a.winner_seat)
      × (t : Trade) × (b.trades ≡ t ∷ a.trades)
      × ((t.at ≡ now) × (t.accepted ≡ accepted))
      × ((t.slot ≡ a.hour) × (t.price_ct ≡ a.price_ct))
      × ((t.bidders ≡ length a.bids) × (t.seat ≡ a.winner_seat))
      × (b.bids ≡ [])
      × (b.hour ≡ rem (a.hour +ℤ pos 1) 24)
      × (settle b later again ≡ (b, negsuc 0))
unfolding settle log_trade ready_epoch settled_trade reset
settle_logs_once a now later accepted again h =
    let again_none : (settle (settle a now accepted).0 later again
        ≡ ((settle a now accepted).0, negsuc 0)) =
      ground arith in
    (
      ground arith,
      settled_trade a now accepted,
      ground arith,
      (refl, refl),
      (refl, refl),
      (refl, refl),
      ground arith,
      ground arith,
      again_none,
    )
