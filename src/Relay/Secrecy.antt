-- ===== src/Relay/Secrecy.antt =====
-- What the messages of examples/energy_auction/main.go tell about the winner of a settled round.
use ares_energy_demo.Prelude.{
  nat_eq, int_eq, ℤ, ◌≡◌, refl, sym, ◌∙◌, ap, Bool, true, false, List, [], ◌∷◌, ◌++◌, arith,
}
use ares_energy_demo.Auction.State.{Bytes, PeerId, Auction, Trade}
use ares_energy_demo.Auction.Seats.{evaluator, seller_id, peer_at_seat}
use ares_energy_demo.Auction.Round.{
  BidResult, bid_rejected, bid_stored, bid_complete, ordered_bids, publish_keys, set_masks, offer,
  reset, set_hour, submit_bid, settle,
}
use ares_energy_demo.Auction.Epoch.{
  ChainStep, next_peer, chain_done, epoch_ciphertexts, epoch_partials_of, advance_epoch_chain,
  submit_epoch_partial, submit_epoch_total, start_epoch_chain, close_epoch, new_epoch, clear_epoch,
}
use ares_energy_demo.Auction.Party.{submit_bid-SameAudit}
use ares_energy_demo.Relay.Handlers.{after_bid, handle_bid, handle_settle, tell_winner}
use ares_energy_demo.Relay.Dispatch.{
  dispatch, after_total, after_partial, after_chained, handle_quiet, handle_epochstart,
  handle_epochtotal,
}
use ares_energy_demo.Auction.Retrade.{
  retrade, view, snapshot-retrade, submit_bid-retrade, start-retrade, total-retrade, settle-retrade,
}
use ares_energy_demo.Relay.Hub.{
  External, Hub, Msg, MsgType, Out, send, send_to, send_each, broadcast, state_msg, with_auction,
  blank,
}

abbrev pub retrade_hub : Hub → List Trade → Hub
retrade_hub h ts = with_auction h (retrade h.auction ts)

-- Two outcomes of an event that differ in nothing but what the log hides.
abbrev pub Alike : Hub × Out → Hub × Out → Type 0
Alike r s =
    (ts : List Trade) × (s.0 ≡ retrade_hub r.0 ts)
    × (view ts ≡ view r.0.auction.trades)
    × (s.1 ≡ r.1)

send_each-cong :
    (h : Hub) (a : Auction) (is : List PeerId) (m n : PeerId → Msg)
    → ((j : PeerId) → n j ≡ m j)
    → send_each (with_auction h a) is n ≡ send_each h is m
unfolding send_each send
send_each-cong h a [] m n e = refl
send_each-cong h a (i ∷ is) m n e = cc (e i, send_each-cong h a is m n e)

pub broadcast-retrade :
    (x : External) (h : Hub) (ts : List Trade)
    → view ts ≡ view h.auction.trades
    → broadcast x (retrade_hub h ts) ≡ broadcast x h
unfolding broadcast
broadcast-retrade x h ts p =
    send_each-cong h (retrade h.auction ts) h.conns (state_msg x h) (state_msg x (retrade_hub h ts))
      λ j. cc (snapshot-retrade x.sine h.auction ts p)

quiet-Alike :
    (x : External) (h : Hub) (a : Auction) (ts : List Trade)
    → view ts ≡ view a.trades
    → Alike (handle_quiet x h a) (handle_quiet x h (retrade a ts))
unfolding handle_quiet
quiet-Alike x h a ts p = (ts, refl, p, broadcast-retrade x (with_auction h a) ts p)

after_bid-Alike :
    (x : External) (h : Hub) (ts : List Trade) (i : PeerId) (r : BidResult)
    → view ts ≡ view h.auction.trades
    → after_bid x (retrade_hub h ts) i r ≡ after_bid x h i r
unfolding after_bid evaluator ordered_bids
after_bid-Alike x h ts i bid_rejected p = rw (broadcast-retrade x h ts p)
after_bid-Alike x h ts i bid_stored p = broadcast-retrade x h ts p
after_bid-Alike x h ts i bid_complete p = rw (broadcast-retrade x h ts p)

after_total-Alike :
    (x : External) (h : Hub) (ts : List Trade) (b : Bool)
    → view ts ≡ view h.auction.trades
    → after_total x (retrade_hub h ts) b ≡ after_total x h b
unfolding after_total evaluator epoch_ciphertexts
after_total-Alike x h ts false p = broadcast-retrade x h ts p
after_total-Alike x h ts true p = rw (broadcast-retrade x h ts p)

after_partial-Alike :
    (x : External) (h : Hub) (ts : List Trade) (b : Bool)
    → view ts ≡ view h.auction.trades
    → after_partial x (retrade_hub h ts) b ≡ after_partial x h b
unfolding after_partial epoch_partials_of
after_partial-Alike x h ts false p = broadcast-retrade x h ts p
after_partial-Alike x h ts true p = rw (broadcast-retrade x h ts p)

after_chained-Alike :
    (x : External) (h : Hub) (m : Msg) (ts : List Trade) (s : ChainStep)
    → view ts ≡ view h.auction.trades
    → after_chained x (retrade_hub h ts) m s ≡ after_chained x h m s
unfolding after_chained
after_chained-Alike x h m ts (next_peer o) p = rw (broadcast-retrade x h ts p)
after_chained-Alike x h m ts chain_done p = rw (broadcast-retrade x h ts p)

audit-trades :
    (a : Auction) (i : PeerId) (ct : Bytes)
    → ((start_epoch_chain a).0.trades ≡ a.trades)
      × ((submit_epoch_total a i ct).0.trades ≡ a.trades)
unfolding start_epoch_chain submit_epoch_total
audit-trades a i ct = (ground arith, ground arith)

tell_winner-retrade :
    (h : Hub) (ts : List Trade) (s : ℤ) (m : Msg)
    → tell_winner (retrade_hub h ts) s m ≡ tell_winner h s m
unfolding tell_winner send_to send peer_at_seat
tell_winner-retrade h ts s m = refl

settle-Alike :
    (x : External) (h : Hub) (m : Msg) (ts : List Trade)
    → view ts ≡ view h.auction.trades
    → Alike (handle_settle x h m) (handle_settle x (retrade_hub h ts) m)
unfolding handle_settle
settle-Alike x h m ts p =
    let b = settle h.auction x.clock m.ok in
    let us = (settle (retrade h.auction ts) x.clock m.ok).0.trades in
    let (e, q) = settle-retrade h.auction ts x.clock m.ok p in
    (
      us,
      ap (λ r. with_auction h r.0) e,
      q,
      ap (λ r. tell_winner (with_auction h r.0) r.1 m ++ broadcast x (with_auction h r.0)) e
          ∙ cc (
            tell_winner-retrade (with_auction h b.0) us b.1 m,
            broadcast-retrade x (with_auction h b.0) us q,
          ),
    )

bid-Alike :
    (x : External) (h : Hub) (i : PeerId) (m : Msg) (ts : List Trade)
    → view ts ≡ view h.auction.trades
    → Alike (handle_bid x h i m) (handle_bid x (retrade_hub h ts) i m)
unfolding handle_bid
bid-Alike x h i m ts p =
    let b = submit_bid h.auction i m.key_id m.blob in
    let e = submit_bid-retrade h.auction ts i m.key_id m.blob in
    let q = p ∙ ap view (sym (submit_bid-SameAudit h.auction i m.key_id m.blob).3) in
    (
      ts,
      ap (λ r. with_auction h r.0) e,
      q,
      ap (λ r. after_bid x (with_auction h r.0) i r.1) e
          ∙ after_bid-Alike x (with_auction h b.0) ts i b.1 q,
    )

start-Alike :
    (x : External) (h : Hub) (ts : List Trade)
    → view ts ≡ view h.auction.trades
    → Alike (handle_epochstart x h) (handle_epochstart x (retrade_hub h ts))
unfolding handle_epochstart
start-Alike x h ts p =
    let b = start_epoch_chain h.auction in
    let e = start-retrade h.auction ts in
    let q = p ∙ ap view (sym (audit-trades h.auction 0 []).0) in
    (
      ts,
      ap (λ r. with_auction h r.0) e,
      q,
      ap
            (λ r.
              send_to (with_auction h r.0) r.1 (blank MsgType.epochchain)
              ++ broadcast x (with_auction h r.0))
            e
          ∙ rw (broadcast-retrade x (with_auction h b.0) ts q),
    )

total-Alike :
    (x : External) (h : Hub) (i : PeerId) (m : Msg) (ts : List Trade)
    → view ts ≡ view h.auction.trades
    → Alike (handle_epochtotal x h i m) (handle_epochtotal x (retrade_hub h ts) i m)
unfolding handle_epochtotal
total-Alike x h i m ts p =
    let b = submit_epoch_total h.auction i m.blob in
    let e = total-retrade h.auction ts i m.blob in
    let q = p ∙ ap view (sym (audit-trades h.auction i m.blob).1) in
    (
      ts,
      ap (λ r. with_auction h r.0) e,
      q,
      ap (λ r. after_total x (with_auction h r.0) r.1) e
          ∙ after_total-Alike x (with_auction h b.0) ts b.1 q,
    )

pub dispatch-Alike :
    (t : MsgType) (x : External) (h : Hub) (i : PeerId) (m : Msg) (ts : List Trade)
    → view ts ≡ view h.auction.trades
    → Alike (dispatch t x h i m) (dispatch t x (retrade_hub h ts) i m)
unfolding dispatch publish_keys set_masks advance_epoch_chain submit_epoch_partial close_epoch
    new_epoch clear_epoch reset set_hour offer evaluator seller_id ordered_bids
dispatch-Alike MsgType.keys x h i m ts p = (
  ts,
  refl,
  p,
  rw (broadcast-retrade x (with_auction h (publish_keys h.auction m.blob m.note)) ts p),
)
dispatch-Alike MsgType.bid x h i m ts p = bid-Alike x h i m ts p
dispatch-Alike MsgType.masks x h i m ts p =
    (ts, refl, p, rw (broadcast-retrade x (with_auction h (set_masks h.auction m.blobs)) ts p))
dispatch-Alike MsgType.offered x h i m ts p =
    quiet-Alike x h (offer h.auction m.seat m.price_ct) ts p
dispatch-Alike MsgType.settles x h i m ts p = settle-Alike x h m ts p
dispatch-Alike MsgType.epochstart x h i m ts p = start-Alike x h ts p
dispatch-Alike MsgType.epochchained x h i m ts p = (
  ts,
  refl,
  p,
  after_chained-Alike x (with_auction h (advance_epoch_chain h.auction m.blob).0) m ts _ p,
)
dispatch-Alike MsgType.epochtotal x h i m ts p = total-Alike x h i m ts p
dispatch-Alike MsgType.epochsummed x h i m ts p = (ts, refl, p, refl)
dispatch-Alike MsgType.epochpartial x h i m ts p = (
  ts,
  refl,
  p,
  after_partial-Alike x (with_auction h (submit_epoch_partial h.auction i m.blob).0) ts _ p,
)
dispatch-Alike MsgType.epochresult x h i m ts p =
    quiet-Alike x h (close_epoch h.auction m.price_ct m.ok) ts p
dispatch-Alike MsgType.newepoch x h i m ts p = ([], refl, refl, refl)
dispatch-Alike MsgType.resets x h i m ts p = quiet-Alike x h (reset h.auction) ts p
dispatch-Alike MsgType.hours x h i m ts p = quiet-Alike x h (set_hour h.auction m.hour) ts p
dispatch-Alike _ x h i m ts p = (ts, refl, p, refl)
