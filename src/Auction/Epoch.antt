-- ===== src/Auction/Epoch.antt =====
-- The aggregate audit of an epoch, and Leave, which may abort it: the methods of
-- examples/energy_auction/auction.go on the epoch fields.
use ares_energy_demo.Prelude.{
  nat_eq, suc, Bool, true, false, ◌&&◌, List, [], ◌∷◌, Option, none, some, get_elem?, length,
  lookup, insert, contains, erase, leb, ltb, if◌then◌else◌,
}
use ares_energy_demo.Auction.State.{
  Bytes, Float64, PeerId, Peer, Auction, is_seller, is_audit, epoch_open, epoch_ready, epoch_audit,
  epoch_done, no_abort, participant_left,
}
use ares_energy_demo.Auction.Seats.{find_peer, delete_peer}
use ares_energy_demo.Auction.Round.{reset}

-- Whether losing this peer invalidates the round.
abbrev pub ends_round : Option Peer → Bool
ends_round none = false
ends_round (some p) = if is_seller p.role then true else p.sealed

unfoldable pub remove_peer : Auction → PeerId → Auction
remove_peer a i = record a { peers = delete_peer i a.peers; order = erase i a.order }

unfoldable pub abort_audit : Auction → Auction
abort_audit a = record a {
  epoch_abort = participant_left;
  epoch = epoch_ready;
  epoch_party = [];
  epoch_totals = [];
  epoch_partials = [];
  chain_pos = 0;
}

unfoldable pub end_round : Auction → Option Peer → Auction
unfolding reset
end_round a p = if ends_round p then reset a else a

unfoldable pub check_audit : Auction → PeerId → Auction
unfolding abort_audit
check_audit a i = if is_audit a.epoch && contains a.epoch_party i then abort_audit a else a

unfoldable pub leave : Auction → PeerId → Auction
unfolding remove_peer end_round check_audit
leave a i = check_audit (end_round (remove_peer a i) (find_peer i a.peers)) i

-- The party is frozen: it is the list of the tabs present.
unfoldable pub open_audit : Auction → Auction
open_audit a = record a {
  epoch = epoch_audit;
  epoch_party = a.order;
  epoch_abort = no_abort;
  epoch_key = [];
  epoch_totals = [];
  epoch_partials = [];
  epoch_opened = false;
  chain_pos = 0;
}

-- The result is the peer that starts the chain.
unfoldable pub start_epoch_chain : Auction → Auction × Option PeerId
unfolding open_audit
start_epoch_chain a = if is_audit a.epoch then (a, none) else (open_audit a, get_elem? a.order 0)

-- What AdvanceEpochChain returns: the next peer of the chain, or that the key is complete.
pub data ChainStep : Type 0 where
  next_peer : Option PeerId → ChainStep
  chain_done : ChainStep

unfoldable pub advance_epoch_chain : Auction → Bytes → Auction × ChainStep
advance_epoch_chain a pk = (
  record a { epoch_key = pk; chain_pos = suc a.chain_pos },
  if leb (length a.epoch_party) (suc a.chain_pos)
      then chain_done
      else next_peer (get_elem? a.epoch_party (suc a.chain_pos)),
)

abbrev pub has_entry : List (PeerId × Bytes) → PeerId → Bool
has_entry m i = elim (lookup i m) [ none ↦ false | some _ ↦ true ]

unfoldable pub all_have : List (PeerId × Bytes) → List PeerId → Bool
all_have m [] = true
all_have m (i ∷ is) = has_entry m i && all_have m is

unfoldable pub have_all : Auction → List (PeerId × Bytes) → Bool
unfolding all_have
have_all a m = all_have m a.epoch_party && ltb 0 (length a.epoch_party)

unfoldable pub submit_epoch_partial : Auction → PeerId → Bytes → Auction × Bool
unfolding have_all
submit_epoch_partial a i ct =
    let b = record a { epoch_partials = insert i ct a.epoch_partials } in
    (b, have_all b b.epoch_partials)

unfoldable pub submit_epoch_total : Auction → PeerId → Bytes → Auction × Bool
unfolding have_all
submit_epoch_total a i ct =
    let b = record a { epoch_totals = insert i ct a.epoch_totals } in
    if is_audit a.epoch then (b, have_all b b.epoch_totals) else (a, false)

-- The entries of the party's members, in the party's order.
unfoldable pub collect : List (PeerId × Bytes) → List PeerId → List Bytes
collect m [] = []
collect m (i ∷ is) = elim (lookup i m) [ none ↦ collect m is | some ct ↦ ct ∷ collect m is ]

unfoldable pub epoch_partials_of : Auction → List Bytes
unfolding collect
epoch_partials_of a = collect a.epoch_partials a.epoch_party

unfoldable pub epoch_ciphertexts : Auction → List Bytes
unfolding collect
epoch_ciphertexts a = collect a.epoch_totals a.epoch_party

unfoldable pub close_epoch : Auction → Float64 → Bool → Auction
close_epoch a net verdict = record a {
  epoch_net = net;
  epoch_ok = verdict;
  epoch_opened = true;
  epoch = epoch_done;
}

unfoldable pub clear_epoch : Auction → Auction
clear_epoch a = record a {
  trades = [];
  epoch = epoch_open;
  epoch_key = [];
  epoch_totals = [];
  epoch_net = 0;
  epoch_ok = false;
  epoch_opened = false;
  chain_pos = 0;
  epoch_partials = [];
  epoch_party = [];
  epoch_abort = no_abort;
}

unfoldable pub new_epoch : Auction → Auction
unfolding clear_epoch reset
new_epoch a = reset (clear_epoch a)
