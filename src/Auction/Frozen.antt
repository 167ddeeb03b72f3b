-- ===== src/Auction/Frozen.antt =====
-- The audit's party does not change while the audit runs, and an epoch stays open for fewer trades
-- than close it (examples/energy_auction/auction.go).
use ares_energy_demo.Prelude.{
  nat_eq, ◌<◌, ◌≡◌, refl, sym, ap, subst, Bool, true, false, arith, inl, inr, ◌⊎◌, Bool-cases,
  length,
}
use ares_energy_demo.Auction.State.{
  Bytes, PeerId, Auction, is_audit, is_open, epoch_size, new_auction,
}
use ares_energy_demo.Auction.Seats.{join}
use ares_energy_demo.Auction.Round.{
  submit_bid, reset, set_hour, publish_keys, set_masks, offer, settle, log_trade, ready_epoch,
}
use ares_energy_demo.Auction.Epoch.{
  leave, remove_peer, end_round, check_audit, start_epoch_chain, open_audit, advance_epoch_chain,
  submit_epoch_partial, submit_epoch_total, close_epoch, new_epoch, clear_epoch,
}
use ares_energy_demo.Auction.Party.{SameAudit, submit_bid-SameAudit}
use ares_energy_demo.Auction.Reach.{
  Step, Reach, start, next, joins, leaves, resets, sets_hour, publishes, bids, masks, offers,
  settles, starts, advances, adds_partial, adds_total, closes, renews,
}

-- Leaving either aborts the audit or leaves its phase, its party and the log.
leave-cases :
    (a : Auction) (i : PeerId)
    → ((leave a i).trades ≡ a.trades)
      × ((((leave a i).epoch ≡ a.epoch) × ((leave a i).epoch_party ≡ a.epoch_party))
          ⊎ ((is_audit (leave a i).epoch ≡ false) × (is_open (leave a i).epoch ≡ false)))
unfolding leave check_audit end_round remove_peer
leave-cases a i = (ground arith, ground arith)

-- Settling logs a trade, or does nothing; an epoch is left open only below its size.
settle-cases :
    (a : Auction) (now : Bytes) (accepted : Bool)
    → ((settle a now accepted).0 ≡ a)
      ⊎ (((settle a now accepted).0.epoch_party ≡ a.epoch_party)
          × (is_audit (settle a now accepted).0.epoch ≡ is_audit a.epoch)
          × (is_open (settle a now accepted).0.epoch ≡ true
              → length (settle a now accepted).0.trades < epoch_size))
unfolding settle log_trade ready_epoch
settle-cases a now accepted = ground arith

abbrev Frozen : Auction → Auction → Type 0
Frozen a b = is_audit a.epoch ≡ true → is_audit b.epoch ≡ true → b.epoch_party ≡ a.epoch_party

leave-Frozen : (a : Auction) (i : PeerId) → Frozen a (leave a i)
leave-Frozen a i e f = elim ((leave-cases a i).1) [
  | inl (_, party) ↦ party
  | inr (off, _) ↦ absurd (ground (arith, off, f))
]

settle-Frozen : (a : Auction) (now : Bytes) (accepted : Bool) → Frozen a (settle a now accepted).0
settle-Frozen a now accepted e f = elim (settle-cases a now accepted) [
  | inl same ↦ ap (λ b. b.epoch_party) same
  | inr (party, _, _) ↦ party
]

start-Frozen : (a : Auction) → Frozen a (start_epoch_chain a).0
unfolding start_epoch_chain
start-Frozen a e f = rw e refl

total-Frozen : (a : Auction) (i : PeerId) (ct : Bytes) → Frozen a (submit_epoch_total a i ct).0
unfolding submit_epoch_total
total-Frozen a i ct e f = rw e refl

-- No method changes the party of an audit that goes on: whoever joins, leaves or bids, it is the one
-- that the audit began with.
audit_party_frozen :
    {a b : Auction}
    → Step a b
    → is_audit a.epoch ≡ true
    → is_audit b.epoch ≡ true
    → b.epoch_party ≡ a.epoch_party
unfolding reset set_hour publish_keys set_masks offer advance_epoch_chain submit_epoch_partial
    close_epoch new_epoch clear_epoch join
audit_party_frozen {a} (joins j fresh) e f = refl
audit_party_frozen {a} (leaves i) e f = leave-Frozen a i e f
audit_party_frozen {a} resets e f = refl
audit_party_frozen {a} (sets_hour t) e f = refl
audit_party_frozen {a} (publishes pk ek) e f = refl
audit_party_frozen {a} (bids i key_id ct) e f = (submit_bid-SameAudit a i key_id ct).1
audit_party_frozen {a} (masks ms) e f = refl
audit_party_frozen {a} (offers seat price) e f = refl
audit_party_frozen {a} (settles now accepted) e f = settle-Frozen a now accepted e f
audit_party_frozen {a} starts e f = start-Frozen a e f
audit_party_frozen {a} (advances pk) e f = refl
audit_party_frozen {a} (adds_partial i ct) e f = refl
audit_party_frozen {a} (adds_total i ct) e f = total-Frozen a i ct e f
audit_party_frozen {a} (closes net verdict) e f = cc
audit_party_frozen {a} renews e f = cc

abbrev OpenBelow : Auction → Type 0
OpenBelow a = is_open a.epoch ≡ true → length a.trades < epoch_size

leave-OpenBelow : (a : Auction) (i : PeerId) → OpenBelow a → OpenBelow (leave a i)
leave-OpenBelow a i h t = elim (leave-cases a i).1 [
  | inl (e, _) ↦
      subst (λ ts. length ts < epoch_size) (sym (leave-cases a i).0)
        (h (subst (λ x. is_open x ≡ true) e t))
  | inr (_, off) ↦ absurd (ground (arith, off, t))
]

settle-OpenBelow :
    (a : Auction) (now : Bytes) (accepted : Bool)
    → OpenBelow a
    → OpenBelow (settle a now accepted).0
settle-OpenBelow a now accepted h = elim (settle-cases a now accepted) [
  | inl same ↦ subst OpenBelow (sym same) h
  | inr (_, _, below) ↦ below
]

start-OpenBelow : (a : Auction) → OpenBelow a → OpenBelow (start_epoch_chain a).0
unfolding start_epoch_chain open_audit
start-OpenBelow a h = elim (Bool-cases (is_audit a.epoch)) [
  | inl e ↦ rw e h
  | inr e ↦ rw e (λ t. absurd (ground (arith, t)))
]

total-OpenBelow :
    (a : Auction) (i : PeerId) (ct : Bytes) → OpenBelow a → OpenBelow (submit_epoch_total a i ct).0
unfolding submit_epoch_total
total-OpenBelow a i ct h = elim (Bool-cases (is_audit a.epoch)) [ inl e ↦ rw e h | inr e ↦ rw e h ]

bids-OpenBelow : (a b : Auction) → SameAudit a b → OpenBelow a → OpenBelow b
bids-OpenBelow a b (e, _, _, trades) h t =
    subst (λ ts. length ts < epoch_size) (sym trades) (h (subst (λ x. is_open x ≡ true) e t))

Step-OpenBelow : {a b : Auction} → OpenBelow a → Step a b → OpenBelow b
unfolding reset set_hour publish_keys set_masks offer advance_epoch_chain submit_epoch_partial
    close_epoch new_epoch clear_epoch join
Step-OpenBelow {a} h (joins j fresh) = h
Step-OpenBelow {a} h (leaves i) = leave-OpenBelow a i h
Step-OpenBelow {a} h resets = h
Step-OpenBelow {a} h (sets_hour t) = h
Step-OpenBelow {a} h (publishes pk ek) = h
Step-OpenBelow {a} h (bids i key_id ct) =
    bids-OpenBelow a (submit_bid a i key_id ct).0 (submit_bid-SameAudit a i key_id ct) h
Step-OpenBelow {a} h (masks ms) = h
Step-OpenBelow {a} h (offers seat price) = h
Step-OpenBelow {a} h (settles now accepted) = settle-OpenBelow a now accepted h
Step-OpenBelow {a} h starts = start-OpenBelow a h
Step-OpenBelow {a} h (advances pk) = h
Step-OpenBelow {a} h (adds_partial i ct) = h
Step-OpenBelow {a} h (adds_total i ct) = total-OpenBelow a i ct h
Step-OpenBelow {a} h (closes net verdict) = λ t. cc
Step-OpenBelow {a} h renews = λ t. omega arith

-- An epoch is open only while fewer than five trades are logged: the fifth one makes it ready.
open_epoch_below_size :
    {a : Auction} → Reach a → is_open a.epoch ≡ true → length a.trades < epoch_size
unfolding new_auction
open_epoch_below_size start = λ t. omega arith
open_epoch_below_size (next r s) = Step-OpenBelow (open_epoch_below_size r) s
