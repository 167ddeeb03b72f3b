-- ===== src/Relay/Confinement.antt =====
-- To whom the relay of examples/energy_auction/main.go sends ciphertexts and private messages.
use ares_energy_demo.Prelude.{
  nat_eq, ℤ, ◌≡◌, refl, Bool, true, false, List, [], ◌∷◌, ◌++◌, Option, none, some, All, arith,
  contains, Bool-cases, inl, inr, not, is_negative, ◌&&◌,
}
use ares_energy_demo.Auction.State.{Bytes, PeerId, Auction}
use ares_energy_demo.Auction.Seats.{evaluator, id_of, seller_id, peer_at_seat}
use ares_energy_demo.Auction.Round.{
  publish_keys, set_masks, offer, reset, set_hour, BidResult, bid_rejected, bid_stored,
  bid_complete, settle, submit_bid, ordered_bids,
}
use ares_energy_demo.Auction.Epoch.{
  close_epoch, new_epoch, start_epoch_chain, open_audit, advance_epoch_chain, submit_epoch_total,
  submit_epoch_partial, ChainStep, next_peer, chain_done, epoch_ciphertexts, epoch_partials_of,
}
use ares_energy_demo.Relay.Hub.{
  External, Hub, Msg, MsgType, Out, send, send_to, send_each, send_all, broadcast, state_msg,
  with_auction,
}
use ares_energy_demo.Relay.Handlers.{after_bid, tell_winner, connect, disconnect}
use ares_energy_demo.Relay.Dispatch.{
  Event, connects, disconnects, message, step, dispatch, handle, after_chained, after_total,
  after_partial,
}

-- No sealed bid, mask, key or note in the message.
abbrev pub Plain : Msg → Type 0
Plain m = (m.blob ≡ []) × (m.blobs ≡ []) × (m.bids ≡ []) × (m.note ≡ [])

-- The message carries this one blob and nothing else of the kind.
abbrev pub Only : Bytes → Msg → Type 0
Only blob m = (m.blob ≡ blob) × (m.blobs ≡ []) × (m.bids ≡ []) × (m.note ≡ [])

-- The message carries these blobs and these sealed bids, with this note, and no blob of its own.
abbrev pub Carries : List Bytes → List Bytes → Bytes → Msg → Type 0
Carries blobs bids note m = (m.blob ≡ []) × (m.blobs ≡ blobs) × (m.bids ≡ bids) × (m.note ≡ note)

-- Who may receive a message of this kind, and what it then carries, after the state has changed to
-- `a`.
abbrev pub Confined : External → Auction → PeerId → MsgType → Msg → Type 0
Confined x a j MsgType.evaluate m =
    (id_of (evaluator a) ≡ some j)
    × Carries (ordered_bids a).0 [] (x.marshal_seats (ordered_bids a).1) m
Confined x a j MsgType.evalkey m = (id_of (evaluator a) ≡ some j) × Only a.eval_key m
Confined x a j MsgType.epochsum m =
    (id_of (evaluator a) ≡ some j) × Carries (epoch_ciphertexts a) [] [] m
Confined x a j MsgType.masks m =
    (seller_id a ≡ some j)
    × Carries a.masks (ordered_bids a).0 (x.marshal_seats (ordered_bids a).1) m
Confined x a j MsgType.won m = (peer_at_seat a m.seat ≡ some j) × Plain m
Confined x a j MsgType.pubkey m = Only a.pub_key m
Confined x a j MsgType.epochchain m = Only a.epoch_key m
Confined x a j MsgType.epochkey m = Only a.epoch_key m
Confined x a j MsgType.epochdecrypt m = (m.blobs ≡ []) × (m.bids ≡ []) × (m.note ≡ [])
Confined x a j MsgType.epochfuse m = Carries (epoch_partials_of a) [] [] m
Confined x a j _ m = Plain m

abbrev pub AllConfined : External → Hub → Out → Type 0
AllConfined x h = All λ o. Confined x h.auction o.0 o.1.type o.1

both :
    (x : External) (h : Hub) (xs ys : Out)
    → AllConfined x h xs
    → AllConfined x h ys
    → AllConfined x h (xs ++ ys)
both x h [] ys p q = q
both x h (o ∷ xs) ys p q = (p.0, both x h xs ys p.1 q)

send-Confined :
    (x : External) (h : Hub) (j : PeerId) (m : Msg)
    → Confined x h.auction j m.type m
    → AllConfined x h (send h j m)
unfolding send
send-Confined x h j m c = elim (Bool-cases (contains h.conns j)) [
  | inl e ↦ rw e (c, tt)
  | inr e ↦ rw e tt
]

send_each-Confined :
    (x : External) (h : Hub) (is : List PeerId) (m : PeerId → Msg)
    → ((j : PeerId) → Confined x h.auction j (m j).type (m j))
    → AllConfined x h (send_each h is m)
unfolding send_each
send_each-Confined x h [] m c = tt
send_each-Confined x h (i ∷ is) m c =
    both x h (send h i (m i)) (send_each h is m) (send-Confined x h i (m i) (c i))
      (send_each-Confined x h is m c)

send_to-Confined :
    (x : External) (h : Hub) (o : Option PeerId) (m : Msg)
    → ((j : PeerId) → o ≡ some j → Confined x h.auction j m.type m)
    → AllConfined x h (send_to h o m)
unfolding send_to
send_to-Confined x h none m c = tt
send_to-Confined x h (some j) m c = send-Confined x h j m (c j refl)

broadcast-Confined : (x : External) (h : Hub) → AllConfined x h (broadcast x h)
unfolding broadcast
broadcast-Confined x h =
    send_each-Confined x h h.conns (state_msg x h) (λ j. (refl, refl, refl, refl))

send_all-Confined :
    (x : External) (h : Hub) (m : Msg)
    → ((j : PeerId) → Confined x h.auction j m.type m)
    → AllConfined x h (send_all h m)
unfolding send_all
send_all-Confined x h m c = send_each-Confined x h h.conns (λ _. m) c

after_bid-Confined :
    (x : External) (h : Hub) (i : PeerId) (r : BidResult) → AllConfined x h (after_bid x h i r)
unfolding after_bid
after_bid-Confined x h i bid_rejected =
    both x h _ _ (send-Confined x h i _ (refl, refl, refl, refl)) (broadcast-Confined x h)
after_bid-Confined x h i bid_stored = broadcast-Confined x h
after_bid-Confined x h i bid_complete =
    both x h _ _ (broadcast-Confined x h)
      (send_to-Confined x h _ _ (λ j e. (e, (refl, refl, refl, refl))))

tell_winner-Confined :
    (x : External) (h : Hub) (seat : ℤ) (m : Msg) → AllConfined x h (tell_winner h seat m)
unfolding tell_winner
tell_winner-Confined x h seat m = elim (Bool-cases (not (is_negative seat) && m.ok)) [
  | inl e ↦
      rw e (
        send_to-Confined x h (peer_at_seat h.auction seat) _ (λ j q. (q, (refl, refl, refl, refl))))
  | inr e ↦ rw e tt
]

-- The chain starts with an empty key.
started-key :
    (a : Auction) (j : PeerId)
    → (start_epoch_chain a).1 ≡ some j
    → [] ≡ (start_epoch_chain a).0.epoch_key
unfolding start_epoch_chain open_audit
started-key a j e = ground (arith, e)

after_chained-Confined :
    (x : External) (h : Hub) (m : Msg) (s : ChainStep)
    → m.blob ≡ h.auction.epoch_key
    → AllConfined x h (after_chained x h m s)
unfolding after_chained
after_chained-Confined x h m (next_peer o) k =
    both x h _ _ (send_to-Confined x h o _ (λ j e. (k, refl, refl, refl))) (broadcast-Confined x h)
after_chained-Confined x h m chain_done k =
    both x h _ _ (broadcast-Confined x h) (send_all-Confined x h _ (λ j. (k, refl, refl, refl)))

after_total-Confined : (x : External) (h : Hub) (b : Bool) → AllConfined x h (after_total x h b)
unfolding after_total
after_total-Confined x h false = broadcast-Confined x h
after_total-Confined x h true =
    both x h _ _ (send_to-Confined x h _ _ (λ j e. (e, (refl, refl, refl, refl))))
      (broadcast-Confined x h)

after_partial-Confined : (x : External) (h : Hub) (b : Bool) → AllConfined x h (after_partial x h b)
unfolding after_partial
after_partial-Confined x h false = broadcast-Confined x h
after_partial-Confined x h true =
    both x h _ _ (send_all-Confined x h _ (λ j. (refl, refl, refl, refl))) (broadcast-Confined x h)

dispatch-Confined :
    (t : MsgType) (x : External) (h : Hub) (i : PeerId) (m : Msg)
    → AllConfined x (dispatch t x h i m).0 (dispatch t x h i m).1
unfolding dispatch publish_keys set_masks advance_epoch_chain
dispatch-Confined MsgType.keys x h i m =
    let h' = with_auction h (publish_keys h.auction m.blob m.note) in
    both x h' _ _ (broadcast-Confined x h') (
      both x h' _ _ (send_all-Confined x h' _ (λ j. (refl, refl, refl, refl)))
        (send_to-Confined x h' _ _ (λ j e. (e, (refl, refl, refl, refl)))))
dispatch-Confined MsgType.bid x h i m =
    after_bid-Confined x (with_auction h (submit_bid h.auction i m.key_id m.blob).0) i _
dispatch-Confined MsgType.masks x h i m =
    let h' = with_auction h (set_masks h.auction m.blobs) in
    both x h' _ _ (send_to-Confined x h' _ _ (λ j e. (e, (refl, refl, refl, refl))))
      (broadcast-Confined x h')
dispatch-Confined MsgType.offered x h i m =
    broadcast-Confined x (with_auction h (offer h.auction m.seat m.price_ct))
dispatch-Confined MsgType.settles x h i m =
    let h' = with_auction h (settle h.auction x.clock m.ok).0 in
    both x h' _ _ (tell_winner-Confined x h' _ m) (broadcast-Confined x h')
dispatch-Confined MsgType.epochstart x h i m =
    let h' = with_auction h (start_epoch_chain h.auction).0 in
    both x h' _ _ (send_to-Confined x h' _ _ (λ j e. (started-key h.auction j e, refl, refl, refl)))
      (broadcast-Confined x h')
dispatch-Confined MsgType.epochchained x h i m =
    after_chained-Confined x (with_auction h (advance_epoch_chain h.auction m.blob).0) m _ refl
dispatch-Confined MsgType.epochtotal x h i m =
    after_total-Confined x (with_auction h (submit_epoch_total h.auction i m.blob).0) _
dispatch-Confined MsgType.epochsummed x h i m = send_all-Confined x h _ (λ j. (refl, refl, refl))
dispatch-Confined MsgType.epochpartial x h i m =
    after_partial-Confined x (with_auction h (submit_epoch_partial h.auction i m.blob).0) _
dispatch-Confined MsgType.epochresult x h i m =
    broadcast-Confined x (with_auction h (close_epoch h.auction m.price_ct m.ok))
dispatch-Confined MsgType.newepoch x h i m =
    let h' = with_auction h (new_epoch h.auction) in
    both x h' _ _ (send_all-Confined x h' _ (λ j. (refl, refl, refl, refl)))
      (broadcast-Confined x h')
dispatch-Confined MsgType.resets x h i m = broadcast-Confined x (with_auction h (reset h.auction))
dispatch-Confined MsgType.hours x h i m =
    broadcast-Confined x (with_auction h (set_hour h.auction m.hour))
dispatch-Confined _ x h i m = tt

-- Whatever happens, every message that the relay sends then is confined, read in the state after
-- the event. The ordered sealed bids with the note of their seats, the evaluation key and the members'
-- totals go to the evaluator only, the masks with the ordered sealed bids and the note of their seats
-- to the seller only, the notice of a win to the buyer in the winning seat only. The public key is the
-- blob of its message, the joint key that of the messages of the audit's chain, and the members'
-- partial decryptions the blobs of theirs. No message has a blob, a list of blobs, sealed bids or a
-- note besides, but for the sum that is passed on to be decrypted, the one blob of its message.
pub step-Confined :
    (x : External) (h : Hub) (e : Event) → AllConfined x (step x h e).0 (step x h e).1
unfolding step connect disconnect handle
step-Confined x h connects = broadcast-Confined x (connect x h).0
step-Confined x h (disconnects i) = broadcast-Confined x (disconnect x h i).0
step-Confined x h (message i m) = dispatch-Confined m.type x h i m
