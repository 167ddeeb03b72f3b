-- ===== src/Auction/Snapshot.antt =====
-- What every tab is sent: Snapshot of examples/energy_auction/auction.go, and the JSON view of the
-- types in it.
use ares_energy_demo.Prelude.{ℕ, ℤ, Bool, List, [], ◌∷◌, map, Option, none, some, length, ltb}
use ares_energy_demo.Auction.State.{
  Bytes, Float64, PeerId, Phase, Peer, Trade, EpochPhase, Abort, Auction, max_buyers, epoch_size,
}
use ares_energy_demo.Auction.Seats.{find_peer, buyer_count, evaluator, id_of}
use ares_energy_demo.Market.{Band, band_at}

-- The exported fields of a Trade; `seat` is unexported and is not marshalled.
pub record PublicTrade : Type 0 where
  pub at : Bytes
  pub slot : ℤ
  pub price_ct : Float64
  pub accepted : Bool
  pub bidders : ℕ

unfoldable pub publish_trade : Trade → PublicTrade
publish_trade t = record {
  at = t.at;
  slot = t.slot;
  price_ct = t.price_ct;
  accepted = t.accepted;
  bidders = t.bidders;
}

pub record Snapshot : Type 0 where
  pub hour : ℤ
  pub band : Option Band
  pub phase : Phase
  pub peers : List Peer
  pub buyers : ℕ
  pub max_buyers : ℕ
  pub sealed : ℕ
  pub evaluator : Option PeerId
  pub winner_seat : ℤ
  pub price_ct : Float64
  pub trades : List PublicTrade
  pub has_keys : Bool
  pub key_id : ℕ
  pub epoch : EpochPhase
  pub epoch_size : ℕ
  pub epoch_net : Float64
  pub epoch_ok : Bool
  pub epoch_open : Bool
  pub epoch_have : ℕ
  pub epoch_chain : ℕ
  pub epoch_parts : ℕ
  pub epoch_party : ℕ
  pub epoch_abort : Abort

abbrev cons_some : Option Peer → List Peer → List Peer
cons_some none ps = ps
cons_some (some p) ps = p ∷ ps

-- The peers in the order in which they joined.
unfoldable pub ordered_peers : List Peer → List PeerId → List Peer
ordered_peers ps [] = []
ordered_peers ps (i ∷ is) = cons_some (find_peer i ps) (ordered_peers ps is)

unfoldable pub snapshot : (ℕ → Float64) → Auction → Snapshot
unfolding ordered_peers publish_trade
snapshot sine a = record {
  hour = a.hour;
  band = band_at sine a.hour;
  phase = a.phase;
  peers = ordered_peers a.peers a.order;
  buyers = buyer_count a.peers;
  max_buyers = max_buyers;
  sealed = length a.bids;
  evaluator = id_of (evaluator a);
  winner_seat = a.winner_seat;
  price_ct = a.price_ct;
  trades = map publish_trade a.trades;
  has_keys = ltb 0 (length a.pub_key);
  key_id = a.key_id;
  epoch = a.epoch;
  epoch_size = epoch_size;
  epoch_net = a.epoch_net;
  epoch_ok = a.epoch_ok;
  epoch_open = a.epoch_opened;
  epoch_have = length a.epoch_totals;
  epoch_chain = a.chain_pos;
  epoch_parts = length a.epoch_partials;
  epoch_party = length a.epoch_party;
  epoch_abort = a.epoch_abort;
}
