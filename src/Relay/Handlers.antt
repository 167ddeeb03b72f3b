-- ===== src/Relay/Handlers.antt =====
-- serveWS's bookkeeping and the handlers of a round's messages in examples/energy_auction/main.go.
use ares_energy_demo.Prelude.{
  nat_eq, suc, ℤ, is_negative, ◌&&◌, not, [], ◌∷◌, ◌++◌, erase, if◌then◌else◌,
}
use ares_energy_demo.Auction.State.{PeerId, Auction}
use ares_energy_demo.Auction.Seats.{join, evaluator, id_of, seller_id, peer_at_seat}
use ares_energy_demo.Auction.Round.{
  publish_keys, BidResult, bid_rejected, bid_stored, bid_complete, submit_bid, ordered_bids,
  set_masks, offer, settle,
}
use ares_energy_demo.Auction.Epoch.{leave}
use ares_energy_demo.Relay.Hub.{
  Msg, pubkey, evalkey, bidrejected, evaluate, won, MsgType, blank, External, Hub, Out, send,
  send_to, send_all, broadcast, with_auction,
}

unfoldable pub connect : External → Hub → Hub × Out
connect x h =
    let i = suc h.next_id in
    let h' = record h { conns = h.conns ++ i ∷ []; auction = join h.auction i; next_id = i } in
    (h', broadcast x h')

unfoldable pub disconnect : External → Hub → PeerId → Hub × Out
disconnect x h i =
    let h' = record h { conns = erase i h.conns; auction = leave h.auction i } in
    (h', broadcast x h')

unfoldable pub handle_keys : External → Hub → Msg → Hub × Out
unfolding send_all send_to
handle_keys x h m =
    let h' = with_auction h (publish_keys h.auction m.blob m.note) in
    (
      h',
      broadcast x h'
          ++ (send_all h' (record (blank pubkey) { blob = m.blob; key_id = h'.auction.key_id })
              ++ send_to h' (id_of (evaluator h'.auction))
                  (record (blank evalkey) { blob = m.note })),
    )

-- The sealed bids for the evaluator.
abbrev pub evaluate_msg : External → Auction → Msg
evaluate_msg x a = record (blank evaluate) {
  blobs = (ordered_bids a).0;
  note = x.marshal_seats (ordered_bids a).1;
}

unfoldable pub after_bid : External → Hub → PeerId → BidResult → Out
unfolding send send_to
after_bid x h i bid_rejected =
    send h i (record (blank bidrejected) { key_id = h.auction.key_id }) ++ broadcast x h
after_bid x h i bid_stored = broadcast x h
after_bid x h i bid_complete =
    broadcast x h ++ send_to h (id_of (evaluator h.auction)) (evaluate_msg x h.auction)

unfoldable pub handle_bid : External → Hub → PeerId → Msg → Hub × Out
unfolding after_bid
handle_bid x h i m =
    let (a, result) = submit_bid h.auction i m.key_id m.blob in
    let h' = with_auction h a in (h', after_bid x h' i result)

-- The masks with the sealed bids, for the seller.
abbrev pub masks_msg : External → Auction → Msg → Msg
masks_msg x a m = record (blank MsgType.masks) {
  blobs = m.blobs;
  bids = (ordered_bids a).0;
  note = x.marshal_seats (ordered_bids a).1;
}

unfoldable pub handle_masks : External → Hub → Msg → Hub × Out
unfolding send_to
handle_masks x h m =
    let h' = with_auction h (set_masks h.auction m.blobs) in
    (h', send_to h' (seller_id h'.auction) (masks_msg x h'.auction m) ++ broadcast x h')

unfoldable pub handle_offer : External → Hub → Msg → Hub × Out
handle_offer x h m =
    let h' = with_auction h (offer h.auction m.seat m.price_ct) in (h', broadcast x h')

unfoldable pub tell_winner : Hub → ℤ → Msg → Out
unfolding send_to
tell_winner h seat m =
    if not (is_negative seat) && m.ok
    then send_to h (peer_at_seat h.auction seat)
        (record (blank won) { seat = seat; price_ct = m.price_ct })
    else []

unfoldable pub handle_settle : External → Hub → Msg → Hub × Out
unfolding tell_winner
handle_settle x h m =
    let (a, seat) = settle h.auction x.clock m.ok in
    let h' = with_auction h a in (h', tell_winner h' seat m ++ broadcast x h')
