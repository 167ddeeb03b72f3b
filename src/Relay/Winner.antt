-- ===== src/Relay/Winner.antt =====
-- The winner's secret in examples/energy_auction/main.go, as a comparison of two runs.
use ares_energy_demo.Prelude.{
  nat_eq, nat_beq, nat_beq_iff, int_eq, ℤ, ◌≡◌, refl, sym, ◌∙◌, ap, ◌≢◌, Bool, true, false, List,
  [], ◌∷◌, ◌++◌, Option, none, some, arith, contains, if◌then◌else◌, is_negative, ◌==◌, Bool-cases,
  Option-cases, In, inl, inr, suc, map, In→contains,
}
use ares_energy_demo.Auction.State.{Bytes, PeerId, Peer, Auction, Trade}
use ares_energy_demo.Auction.Seats.{join, peer_at_seat, buyer_at, unseal, id_of}
use ares_energy_demo.Auction.Round.{settle, offer, log_trade, ready_epoch}
use ares_energy_demo.Auction.Epoch.{leave, check_audit, end_round, remove_peer}
use ares_energy_demo.Auction.Retrade.{retrade, view, settle-winner, join-retrade, leave-retrade}
use ares_energy_demo.Auction.Snapshot.{snapshot}
use ares_energy_demo.Relay.Hub.{
  External, Hub, Msg, Out, send, send_to, send_each, broadcast, state_msg, with_auction,
}
use ares_energy_demo.Relay.Handlers.{connect, disconnect, handle_settle, handle_offer, tell_winner}
use ares_energy_demo.Relay.Dispatch.{Event, connects, disconnects, message, step, handle}
use ares_energy_demo.Relay.Secrecy.{retrade_hub, Alike, broadcast-retrade, dispatch-Alike}

-- All that is sent over a sequence of events.
pub outputs : External → Hub → List Event → Out
outputs x h [] = []
outputs x h (e ∷ es) = (step x h e).1 ++ outputs x (step x h e).0 es

-- What one tab gets of it.
pub received : PeerId → Out → List Msg
received j [] = []
received j ((i, m) ∷ o) = if i == j then m ∷ received j o else received j o

leave-view : (a : Auction) (i : PeerId) → (leave a i).trades ≡ a.trades
unfolding leave check_audit end_round remove_peer
leave-view a i = ground arith

join-view : (a : Auction) (i : PeerId) → (join a i).trades ≡ a.trades
unfolding join
join-view a i = refl

-- A tab comes or goes under another log that looks alike.
moved-Alike :
    (x : External) (h : Hub) (b : Auction) (ts : List Trade)
    → b ≡ retrade h.auction ts
    → view ts ≡ view h.auction.trades
    → (us : List Trade) × (with_auction h b ≡ retrade_hub h us)
      × (view us ≡ view h.auction.trades)
      × (broadcast x (with_auction h b) ≡ broadcast x h)
moved-Alike x h b ts e p = (
  ts,
  ap (with_auction h) e,
  p,
  ap (λ a. broadcast x (with_auction h a)) e ∙ broadcast-retrade x h ts p,
)

step-Alike :
    (x : External) (h : Hub) (e : Event) (ts : List Trade)
    → view ts ≡ view h.auction.trades
    → Alike (step x h e) (step x (retrade_hub h ts) e)
unfolding step connect disconnect handle
step-Alike x h connects ts p =
    moved-Alike x (connect x h).0 (join (retrade h.auction ts) (suc h.next_id)) ts
      (join-retrade h.auction ts (suc h.next_id))
      (p ∙ ap view (sym (join-view h.auction (suc h.next_id))))
step-Alike x h (disconnects i) ts p =
    moved-Alike x (disconnect x h i).0 (leave (retrade h.auction ts) i) ts
      (leave-retrade h.auction ts i) (p ∙ ap view (sym (leave-view h.auction i)))
step-Alike x h (message i m) ts p = dispatch-Alike m.type x h i m ts p

outputs-retrade :
    (x : External) (h : Hub) (es : List Event) (ts : List Trade)
    → view ts ≡ view h.auction.trades
    → outputs x (retrade_hub h ts) es ≡ outputs x h es
unfolding outputs
outputs-retrade x h [] ts p = refl
outputs-retrade x h (e ∷ es) ts p =
    let (us, hub, q, out) = step-Alike x h e ts p in
    cc (out, ap (λ k. outputs x k es) hub, outputs-retrade x (step x h e).0 es us q)

received-append : (j : PeerId) (o r : Out) → received j (o ++ r) ≡ received j o ++ received j r
unfolding received
received-append j [] r = refl
received-append j ((i, m) ∷ o) r = ground (arith, received-append j o r)

-- A tab that is not in the winning seat gets no notice of the win.
received-tell_winner :
    (j : PeerId) (h : Hub) (s : ℤ) (m : Msg)
    → peer_at_seat h.auction s ≢ some j
    → received j (tell_winner h s m) ≡ []
unfolding received tell_winner send_to send
received-tell_winner j h s m ne = elim (Option-cases (peer_at_seat h.auction s)) [
  | inl e ↦ rw (e, send_to) (ground arith)
  | inr (i, e) ↦ rw (e, send_to) (ground (arith, nat_beq_iff i j, e, ne))
]

buyer_at-unseal :
    (s : ℤ) (ps : List Peer) → id_of (buyer_at s (map unseal ps)) ≡ id_of (buyer_at s ps)
unfolding buyer_at
buyer_at-unseal s [] = refl
buyer_at-unseal s (p ∷ ps) = ground (arith, buyer_at-unseal s ps)

-- Settling leaves everybody in their seats, and returns the winner's.
settle-seats :
    (a : Auction) (now : Bytes) (accepted : Bool) (t : ℤ)
    → is_negative a.winner_seat ≡ false
    → (peer_at_seat (settle a now accepted).0 t ≡ peer_at_seat a t)
      × ((settle a now accepted).1 ≡ a.winner_seat)
unfolding settle log_trade ready_epoch peer_at_seat
settle-seats a now accepted t h = ground (arith, buyer_at-unseal t a.peers)

-- What a tab that did not win gets of a settlement and of all that follows.
settle-received :
    (x : External) (h : Hub) (m : Msg) (es : List Event) (j : PeerId)
    → is_negative h.auction.winner_seat ≡ false
    → peer_at_seat h.auction h.auction.winner_seat ≢ some j
    → let r = handle_settle x h m in
      received j (r.1 ++ outputs x r.0 es) ≡ received j (broadcast x r.0 ++ outputs x r.0 es)
unfolding handle_settle
settle-received x h m es j n ne =
    let b = settle h.auction x.clock m.ok in
    let (seat, won) = settle-seats h.auction x.clock m.ok b.1 n in
    let g = with_auction h b.0 in
    received-append j (tell_winner g b.1 m ++ broadcast x g) (outputs x g es)
    ∙ cc (
      received-append j (tell_winner g b.1 m) (broadcast x g),
      received-append j (broadcast x g) (outputs x g es),
      received-tell_winner j g b.1 m
          (λ e. ne (ap (peer_at_seat h.auction) (sym won) ∙ sym seat ∙ e)),
    )

-- The winner stays secret: take two runs that differ in nothing but the seat that won, which is a
-- seat and not -1 in both, settle the round in both and let the same events follow. A tab that
-- sits in neither of the two seats receives the same messages in both runs, from the settlement
-- on and for ever.
pub winner_stays_secret :
    (x : External) (h : Hub) (s : ℤ) (m : Msg) (es : List Event) (j : PeerId)
    → is_negative h.auction.winner_seat ≡ false
    → is_negative s ≡ false
    → peer_at_seat h.auction h.auction.winner_seat ≢ some j
    → peer_at_seat h.auction s ≢ some j
    → let r = handle_settle x h m in
      let q = handle_settle x (with_auction h (record h.auction { winner_seat = s })) m in
      received j (r.1 ++ outputs x r.0 es) ≡ received j (q.1 ++ outputs x q.0 es)
unfolding handle_settle
winner_stays_secret x h s m es j n k ne ne' =
    let h' = with_auction h (record h.auction { winner_seat = s }) in
    let b = with_auction h (settle h.auction x.clock m.ok).0 in
    let c = with_auction h (settle h'.auction x.clock m.ok).0 in
    let us = c.auction.trades in
    let (e, p) = settle-winner h.auction s x.clock m.ok n k in
    let f = ap (with_auction h) e in
    settle-received x h m es j n ne
    ∙ cc (
      settle-received x h' m es j k (unfold peer_at_seat in ne'),
      broadcast-retrade x b us p,
      outputs-retrade x b es us p,
    )

-- The winning seat in the first message, if that is a state.
first_seat : List Msg → Option ℤ
first_seat [] = none
first_seat (m ∷ ms) = elim m.state [ none ↦ none | some v ↦ some v.winner_seat ]

send_each-first :
    (x : External) (h : Hub) (j : PeerId) (is : List PeerId)
    → contains h.conns j ≡ true
    → In j is
    → first_seat (received j (send_each h is (state_msg x h))) ≡ some h.auction.winner_seat
unfolding send_each send received first_seat snapshot
send_each-first x h j [] c m = absurd m
send_each-first x h j (i ∷ is) c m = elim (Bool-cases (nat_beq i j)) [
  | inl e ↦ ground (arith, nat_beq_iff i j, c, ap (contains h.conns) ((nat_beq_iff i j).0 e))
  | inr e ↦ ground (arith, nat_beq_iff i j, send_each-first x h j is c)
]

-- Before the settlement it is not: the offer that names the seat is broadcast to every tab, so two
-- offers that differ in the seat alone are told apart by each tab that is connected, the buyers that
-- lost included.
pub offer_reveals_seat :
    (x : External) (h : Hub) (m : Msg) (s : ℤ) (j : PeerId)
    → In j h.conns
    → m.seat ≢ s
    → received j (handle_offer x h m).1 ≢ received j (handle_offer x h (record m { seat = s })).1
unfolding handle_offer broadcast offer
offer_reveals_seat x h m s j c ne e =
    let open_tab = In→contains h.conns j c in
    let g = with_auction h (offer h.auction m.seat m.price_ct) in
    let k = with_auction h (offer h.auction s m.price_ct) in
    ne (cc (send_each-first x g j h.conns open_tab c, send_each-first x k j h.conns open_tab c))
