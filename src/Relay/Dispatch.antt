-- ===== src/Relay/Dispatch.antt =====
-- The handlers of the audit's messages and the whole `switch` of examples/energy_auction/main.go.
use ares_energy_demo.Prelude.{Bool, true, false, List, [], ◌∷◌, ◌++◌}
use ares_energy_demo.Auction.State.{PeerId, Auction}
use ares_energy_demo.Auction.Seats.{evaluator, id_of}
use ares_energy_demo.Auction.Round.{reset, set_hour}
use ares_energy_demo.Auction.Epoch.{
  start_epoch_chain, ChainStep, next_peer, chain_done, advance_epoch_chain, submit_epoch_partial,
  submit_epoch_total, epoch_partials_of, epoch_ciphertexts, close_epoch, new_epoch,
}
use ares_energy_demo.Relay.Hub.{
  MsgType, keys, bid, masks, offered, settles, epochstart, epochchained, epochtotal, epochsummed,
  epochpartial, epochresult, newepoch, resets, hours, epochchain, epochkey, epochsum, epochdecrypt,
  epochfuse, epochreset, Msg, blank, External, Hub, Out, send_to, send_all, broadcast, with_auction,
}
use ares_energy_demo.Relay.Handlers.{
  handle_keys, handle_bid, handle_masks, handle_offer, handle_settle, connect, disconnect,
}

unfoldable pub handle_epochstart : External → Hub → Hub × Out
unfolding send_to
handle_epochstart x h =
    let (a, first) = start_epoch_chain h.auction in
    let h' = with_auction h a in (h', send_to h' first (blank epochchain) ++ broadcast x h')

unfoldable pub after_chained : External → Hub → Msg → ChainStep → Out
unfolding send_to send_all
after_chained x h m (next_peer i) =
    send_to h i (record (blank epochchain) { blob = m.blob }) ++ broadcast x h
after_chained x h m chain_done =
    broadcast x h ++ send_all h (record (blank epochkey) { blob = m.blob })

unfoldable pub handle_epochchained : External → Hub → Msg → Hub × Out
unfolding after_chained
handle_epochchained x h m =
    let (a, step) = advance_epoch_chain h.auction m.blob in
    let h' = with_auction h a in (h', after_chained x h' m step)

unfoldable pub after_total : External → Hub → Bool → Out
unfolding send_to
after_total x h false = broadcast x h
after_total x h true =
    send_to h (id_of (evaluator h.auction))
      (record (blank epochsum) { blobs = epoch_ciphertexts h.auction })
    ++ broadcast x h

unfoldable pub handle_epochtotal : External → Hub → PeerId → Msg → Hub × Out
unfolding after_total
handle_epochtotal x h i m =
    let (a, full) = submit_epoch_total h.auction i m.blob in
    let h' = with_auction h a in (h', after_total x h' full)

unfoldable pub after_partial : External → Hub → Bool → Out
unfolding send_all
after_partial x h false = broadcast x h
after_partial x h true =
    send_all h (record (blank epochfuse) { blobs = epoch_partials_of h.auction }) ++ broadcast x h

unfoldable pub handle_epochpartial : External → Hub → PeerId → Msg → Hub × Out
unfolding after_partial
handle_epochpartial x h i m =
    let (a, full) = submit_epoch_partial h.auction i m.blob in
    let h' = with_auction h a in (h', after_partial x h' full)

unfoldable pub handle_newepoch : External → Hub → Hub × Out
unfolding send_all
handle_newepoch x h =
    let h' = with_auction h (new_epoch h.auction) in
    (h', send_all h' (blank epochreset) ++ broadcast x h')

-- A handler that changes the auction and broadcasts it.
unfoldable pub handle_quiet : External → Hub → Auction → Hub × Out
handle_quiet x h a = let h' = with_auction h a in (h', broadcast x h')

-- The `switch` on the message's type; a text that no case names is ignored.
unfoldable pub dispatch : MsgType → External → Hub → PeerId → Msg → Hub × Out
unfolding handle_keys handle_bid handle_masks handle_offer handle_settle handle_epochstart
    handle_epochchained handle_epochtotal handle_epochpartial handle_newepoch handle_quiet send_all
dispatch keys x h i m = handle_keys x h m
dispatch bid x h i m = handle_bid x h i m
dispatch masks x h i m = handle_masks x h m
dispatch offered x h i m = handle_offer x h m
dispatch settles x h i m = handle_settle x h m
dispatch epochstart x h i m = handle_epochstart x h
dispatch epochchained x h i m = handle_epochchained x h m
dispatch epochtotal x h i m = handle_epochtotal x h i m
dispatch epochsummed x h i m = (h, send_all h (record (blank epochdecrypt) { blob = m.blob }))
dispatch epochpartial x h i m = handle_epochpartial x h i m
dispatch epochresult x h i m = handle_quiet x h (close_epoch h.auction m.price_ct m.ok)
dispatch newepoch x h i m = handle_newepoch x h
dispatch resets x h i m = handle_quiet x h (reset h.auction)
dispatch hours x h i m = handle_quiet x h (set_hour h.auction m.hour)
dispatch _ x h i m = (h, [])

unfoldable pub handle : External → Hub → PeerId → Msg → Hub × Out
unfolding dispatch
handle x h i m = dispatch m.type x h i m

-- What happens to the relay: a tab connects, is lost, or sends a message.
pub data Event : Type 0 where
  connects : Event
  disconnects : PeerId → Event
  message : PeerId → Msg → Event

unfoldable pub step : External → Hub → Event → Hub × Out
unfolding connect disconnect handle
step x h connects = connect x h
step x h (disconnects i) = disconnect x h i
step x h (message i m) = handle x h i m

unfoldable pub run : External → Hub → List Event → Hub
unfolding step
run x h [] = h
run x h (e ∷ es) = run x (step x h e).0 es
