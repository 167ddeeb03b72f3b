-- ===== src/Relay/Hub.antt =====
-- The hub of examples/energy_auction/main.go: its wire messages, its state and the ways it sends.
use ares_energy_demo.Prelude.{
  nat_eq, ℕ, ℤ, pos, Bool, false, List, [], ◌∷◌, ◌++◌, Option, none, some, contains, if◌then◌else◌,
}
use ares_energy_demo.Auction.State.{Bytes, Float64, PeerId, Auction, new_auction}
use ares_energy_demo.Auction.Snapshot.{Snapshot, snapshot}

-- The text of `msg.Type`, in both directions; `unknown` is any other text.
pub data MsgType : Type 0 where
  keys bid masks offered settles epochstart epochchained epochtotal epochsummed epochpartial :
      MsgType
  epochresult newepoch resets hours unknown : MsgType
  state pubkey evalkey bidrejected evaluate won epochchain epochkey epochsum : MsgType
  epochdecrypt epochfuse epochreset : MsgType

pub record Msg : Type 0 where
  pub type : MsgType
  pub blob : Bytes
  pub blobs : List Bytes
  pub bids : List Bytes
  pub seat : ℤ
  pub price_ct : Float64
  pub hour : ℤ
  pub key_id : ℕ
  pub ok : Bool
  pub you : Option PeerId
  pub state : Option Snapshot
  pub note : Bytes

-- A message with the zero value in every other field.
abbrev pub blank : MsgType → Msg
blank t = record {
  type = t;
  blob = [];
  blobs = [];
  bids = [];
  seat = pos 0;
  price_ct = 0;
  hour = pos 0;
  key_id = 0;
  ok = false;
  you = none;
  state = none;
  note = [];
}

-- What the relay takes from elsewhere: the sine in PVOutput, json.Marshal of a list of seats and the
-- clock's formatted time.
pub record External : Type 0 where
  pub sine : ℕ → Float64
  pub marshal_seats : List ℤ → Bytes
  pub clock : Bytes

-- `conns` holds the ids with an open connection, in the order of `h.order`.
pub record Hub : Type 0 where
  pub conns : List PeerId
  pub auction : Auction
  pub next_id : ℕ

unfoldable pub new_hub : Hub
new_hub = record { conns = []; auction = new_auction; next_id = 0 }

abbrev pub Out : Type 0
Out = List (PeerId × Msg)

-- A message to a closed connection is dropped.
unfoldable pub send : Hub → PeerId → Msg → Out
send h i m = if contains h.conns i then (i, m) ∷ [] else []

unfoldable pub send_to : Hub → Option PeerId → Msg → Out
unfolding send
send_to h none m = []
send_to h (some i) m = send h i m

-- One message to each of the given ids.
unfoldable pub send_each : Hub → List PeerId → (PeerId → Msg) → Out
unfolding send
send_each h [] m = []
send_each h (i ∷ is) m = send h i (m i) ++ send_each h is m

unfoldable pub send_all : Hub → Msg → Out
unfolding send_each
send_all h m = send_each h h.conns (λ _. m)

abbrev pub state_msg : External → Hub → PeerId → Msg
state_msg x h i = record (blank state) { you = some i; state = some (snapshot x.sine h.auction) }

unfoldable pub broadcast : External → Hub → Out
unfolding send_each
broadcast x h = send_each h h.conns (state_msg x h)

abbrev pub with_auction : Hub → Auction → Hub
with_auction h a = record h { auction = a }
