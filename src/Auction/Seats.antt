-- ===== src/Auction/Seats.antt =====
-- Who sits where: the peer map of examples/energy_auction/auction.go with Join and the lookups.
use ares_energy_demo.Prelude.{
  nat_eq, int_eq, ℕ, ◌+◌, ℤ, pos, negsuc, ◌==◌, true, false, ◌&&◌, List, [], ◌∷◌, ◌++◌, Option,
  none, some, ltb, if◌then◌else◌,
}
use ares_energy_demo.Auction.State.{
  PeerId, max_buyers, role_seller, role_buyer, role_full, is_seller, is_buyer, Peer, Auction,
}

abbrev pub ids : List Peer → List PeerId
ids [] = []
ids (p ∷ ps) = p.id ∷ ids ps

-- `a.peers[id]`
unfoldable pub find_peer : PeerId → List Peer → Option Peer
find_peer i [] = none
find_peer i (p ∷ ps) = if p.id == i then some p else find_peer i ps

-- `a.peers[p.ID] = p`
unfoldable pub put_peer : Peer → List Peer → List Peer
put_peer p [] = p ∷ []
put_peer p (q ∷ qs) = if q.id == p.id then p ∷ qs else q ∷ put_peer p qs

-- `delete(a.peers, id)`
unfoldable pub delete_peer : PeerId → List Peer → List Peer
delete_peer i [] = []
delete_peer i (p ∷ ps) = if p.id == i then delete_peer i ps else p ∷ delete_peer i ps

-- `p.Sealed = true` through the pointer that the map holds.
unfoldable pub seal : PeerId → List Peer → List Peer
seal i [] = []
seal i (p ∷ ps) = if p.id == i then record p { sealed = true } ∷ ps else p ∷ seal i ps

abbrev pub unseal : Peer → Peer
unseal p = record p { sealed = false }

-- The first seller of the map's iteration.
unfoldable pub seller : List Peer → Option Peer
seller [] = none
seller (p ∷ ps) = if is_seller p.role then some p else seller ps

unfoldable pub buyer_count : List Peer → ℕ
buyer_count [] = 0
buyer_count (p ∷ ps) = (if is_buyer p.role then 1 else 0) + buyer_count ps

abbrev pub buyer_of : Option Peer → Option Peer
buyer_of none = none
buyer_of (some p) = if is_buyer p.role then some p else none

abbrev or_else : Option Peer → Option Peer → Option Peer
or_else none o = o
or_else (some p) o = some p

-- The buyer that joined first of those present.
unfoldable pub first_buyer : List Peer → List PeerId → Option Peer
first_buyer ps [] = none
first_buyer ps (i ∷ is) = or_else (buyer_of (find_peer i ps)) (first_buyer ps is)

unfoldable pub evaluator : Auction → Option Peer
evaluator a = first_buyer a.peers a.order

unfoldable pub new_peer : Auction → PeerId → Peer
new_peer a i = elim (seller a.peers) [
  | none ↦ record { id = i; role = role_seller; seat = negsuc 0; sealed = false }
  | some _ ↦
      if ltb (buyer_count a.peers) max_buyers
      then record { id = i; role = role_buyer; seat = pos (buyer_count a.peers); sealed = false }
      else record { id = i; role = role_full; seat = negsuc 0; sealed = false }
]

unfoldable pub join : Auction → PeerId → Auction
unfolding new_peer
join a i = record a { peers = put_peer (new_peer a i) a.peers; order = a.order ++ i ∷ [] }

abbrev pub id_of : Option Peer → Option PeerId
id_of none = none
id_of (some p) = some p.id

unfoldable pub seller_id : Auction → Option PeerId
seller_id a = id_of (seller a.peers)

unfoldable pub buyer_at : ℤ → List Peer → Option Peer
buyer_at s [] = none
buyer_at s (p ∷ ps) = if is_buyer p.role && p.seat == s then some p else buyer_at s ps

-- The first buyer in that seat of the map's iteration.
unfoldable pub peer_at_seat : Auction → ℤ → Option PeerId
unfolding buyer_at
peer_at_seat a s = id_of (buyer_at s a.peers)
