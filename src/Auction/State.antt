-- ===== src/Auction/State.antt =====
-- The data of the energy auction: the types, constants and constructor of
-- examples/energy_auction/auction.go.
use ares_energy_demo.Prelude.{ℕ, ℤ, pos, negsuc, Bool, true, false, List, []}

-- An opaque byte string; Go's nil slice is the empty one.
abbrev pub Bytes : Type 0
Bytes = List ℕ

-- A float64 that the relay stores and forwards and never computes with: its bit pattern, 0 for +0.0.
abbrev pub Float64 : Type 0
Float64 = ℕ

-- The connection id "p<n>", by its number; the empty id is `none`.
abbrev pub PeerId : Type 0
PeerId = ℕ

abbrev pub max_buyers : ℕ
max_buyers = 5

abbrev pub epoch_size : ℕ
epoch_size = 5

pub data Role : Type 0 where
  role_seller role_buyer role_full : Role

abbrev pub is_seller : Role → Bool
is_seller role_seller = true
is_seller _ = false

abbrev pub is_buyer : Role → Bool
is_buyer role_buyer = true
is_buyer _ = false

pub data Phase : Type 0 where
  phase_waiting phase_bidding phase_evaluating phase_offer phase_settled : Phase

abbrev pub is_bidding : Phase → Bool
is_bidding phase_bidding = true
is_bidding _ = false

pub record Peer : Type 0 where
  pub id : PeerId
  pub role : Role
  pub seat : ℤ
  pub sealed : Bool

pub record Trade : Type 0 where
  pub at : Bytes
  pub slot : ℤ
  pub price_ct : Float64
  pub accepted : Bool
  pub bidders : ℕ
  pub seat : ℤ

pub data EpochPhase : Type 0 where
  epoch_open epoch_ready epoch_audit epoch_done : EpochPhase

abbrev pub is_open : EpochPhase → Bool
is_open epoch_open = true
is_open _ = false

abbrev pub is_audit : EpochPhase → Bool
is_audit epoch_audit = true
is_audit _ = false

-- The text of `epochAbort`: empty, or the one message that the code writes.
pub data Abort : Type 0 where
  no_abort participant_left : Abort

-- `key_id` and the wire's key ids are 64-bit patterns of an `int`, so that equality of patterns is
-- equality of the integers. `chain_pos` counts calls and is left unbounded. `peers` is the map from
-- ids to peers, by the id that each peer holds.
pub record Auction : Type 0 where
  pub hour : ℤ
  pub phase : Phase
  pub peers : List Peer
  pub order : List PeerId
  pub pub_key : Bytes
  pub eval_key : Bytes
  pub bids : List (ℤ × Bytes)
  pub masks : List Bytes
  pub key_id : ℕ
  pub winner_seat : ℤ
  pub price_ct : Float64
  pub trades : List Trade
  pub epoch : EpochPhase
  pub epoch_key : Bytes
  pub epoch_totals : List (PeerId × Bytes)
  pub epoch_net : Float64
  pub epoch_ok : Bool
  pub epoch_opened : Bool
  pub chain_pos : ℕ
  pub epoch_partials : List (PeerId × Bytes)
  pub epoch_party : List PeerId
  pub epoch_abort : Abort

unfoldable pub new_auction : Auction
new_auction = record {
  hour = pos 13;
  phase = phase_waiting;
  peers = [];
  order = [];
  pub_key = [];
  eval_key = [];
  bids = [];
  masks = [];
  key_id = 0;
  winner_seat = negsuc 0;
  price_ct = 0;
  trades = [];
  epoch = epoch_open;
  epoch_key = [];
  epoch_totals = [];
  epoch_net = 0;
  epoch_ok = false;
  epoch_opened = false;
  chain_pos = 0;
  epoch_partials = [];
  epoch_party = [];
  epoch_abort = no_abort;
}
