-- ===== src/Auction/Retrade.antt =====
-- No method of examples/energy_auction/auction.go reads the seats in the log: another log with the
-- same public view goes through every method in the same way.
use ares_energy_demo.Prelude.{
  nat_eq, int_eq, ℕ, ℤ, ◌≡◌, refl, ap, Bool, false, List, map, arith, length, length-map,
  is_negative,
}
use ares_energy_demo.Auction.State.{Bytes, Float64, PeerId, Auction, Trade}
use ares_energy_demo.Auction.Seats.{join, evaluator}
use ares_energy_demo.Auction.Round.{
  submit_bid, accept_bid, store_bid, close_bidding, settle, log_trade, ready_epoch, settled_trade,
}
use ares_energy_demo.Auction.Epoch.{
  leave, remove_peer, end_round, check_audit, start_epoch_chain, submit_epoch_total,
}
use ares_energy_demo.Auction.Snapshot.{snapshot, PublicTrade, publish_trade}

abbrev pub retrade : Auction → List Trade → Auction
retrade a ts = record a { trades = ts }

abbrev pub view : List Trade → List PublicTrade
view = map publish_trade

-- The public state shows the log's view alone.
pub snapshot-retrade :
    (sine : ℕ → Float64) (a : Auction) (ts : List Trade)
    → view ts ≡ view a.trades
    → snapshot sine (retrade a ts) ≡ snapshot sine a
unfolding snapshot evaluator
snapshot-retrade sine a ts p = ground (arith, p)

module _ (a : Auction) (ts : List Trade) where
  pub join-retrade : (i : PeerId) → join (retrade a ts) i ≡ retrade (join a i) ts
  unfolding join
  join-retrade i = refl

  pub leave-retrade : (i : PeerId) → leave (retrade a ts) i ≡ retrade (leave a i) ts
  unfolding leave check_audit end_round remove_peer
  leave-retrade i = ground arith

  pub submit_bid-retrade :
      (i : PeerId) (key_id : ℕ) (ct : Bytes)
      → submit_bid (retrade a ts) i key_id ct
        ≡ (retrade (submit_bid a i key_id ct).0 ts, (submit_bid a i key_id ct).1)
  unfolding submit_bid accept_bid store_bid close_bidding
  submit_bid-retrade i key_id ct = ground arith

  pub start-retrade :
      start_epoch_chain (retrade a ts)
      ≡ (retrade (start_epoch_chain a).0 ts, (start_epoch_chain a).1)
  unfolding start_epoch_chain
  start-retrade = ground arith

  pub total-retrade :
      (i : PeerId) (ct : Bytes)
      → submit_epoch_total (retrade a ts) i ct
        ≡ (retrade (submit_epoch_total a i ct).0 ts, (submit_epoch_total a i ct).1)
  unfolding submit_epoch_total
  total-retrade i ct = ground arith

  pub settle-retrade :
      (now : Bytes) (accepted : Bool)
      → view ts ≡ view a.trades
      → let s = settle (retrade a ts) now accepted in
        (s ≡ (retrade (settle a now accepted).0 s.0.trades, (settle a now accepted).1))
        × (view s.0.trades ≡ view (settle a now accepted).0.trades)
  unfolding settle log_trade ready_epoch settled_trade
  settle-retrade now accepted p =
      ground (arith, p, ap length p, length-map publish_trade ts, length-map publish_trade a.trades)

-- Two winners of one round leave logs that look alike.
pub settle-winner :
    (a : Auction) (s : ℤ) (now : Bytes) (accepted : Bool)
    → is_negative a.winner_seat ≡ false
    → is_negative s ≡ false
    → let b = (settle a now accepted).0 in
      let c = (settle (record a { winner_seat = s }) now accepted).0 in
      (c ≡ retrade b c.trades) × (view c.trades ≡ view b.trades)
unfolding settle log_trade ready_epoch settled_trade publish_trade
settle-winner a s now accepted h k = ground arith
