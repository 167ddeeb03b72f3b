-- ===== src/Relay/Refinement.antt =====
-- The relay only ever calls the auction's methods, with new ids for new tabs
-- (examples/energy_auction/main.go).
use ares_energy_demo.Prelude.{
  nat_eq, suc, ◌≤◌, ◌≡◌, refl, sym, ◌∙◌, ap, subst, List, [], ◌∷◌, ◌++◌, arith, In, erase, In-erase,
  inl, inr, ◌⊎◌, Bool,
}
use ares_energy_demo.Auction.State.{PeerId, Auction, new_auction, Bytes}
use ares_energy_demo.Auction.Seats.{join}
use ares_energy_demo.Auction.Reach.{
  Reach, start, next, joins, leaves, resets, sets_hour, publishes, bids, masks, offers, settles,
  starts, advances, adds_partial, adds_total, closes, renews,
}
use ares_energy_demo.Auction.Round.{
  publish_keys, set_masks, offer, settle, log_trade, ready_epoch, reset, set_hour,
}
use ares_energy_demo.Auction.Epoch.{
  leave, check_audit, end_round, remove_peer, start_epoch_chain, advance_epoch_chain,
  submit_epoch_partial, submit_epoch_total, close_epoch, new_epoch,
}
use ares_energy_demo.Auction.Party.{submit_bid-SameAudit}
use ares_energy_demo.Relay.Hub.{External, Hub, Msg, new_hub, MsgType}
use ares_energy_demo.Relay.Handlers.{connect, disconnect}
use ares_energy_demo.Relay.Dispatch.{
  Event, connects, disconnects, message, step, run, dispatch, handle,
}

-- What holds of the hub between two events.
pub record HubInv (h : Hub) : Type 0 where
  pub reach : Reach h.auction
  pub aligned : h.auction.order ≡ h.conns
  pub issued : (i : PeerId) → In i h.conns → i ≤ h.next_id

dispatch-auction :
    (t : MsgType) (x : External) (h : Hub) (i : PeerId) (m : Msg)
    → Reach h.auction
    → Reach (dispatch t x h i m).0.auction
unfolding dispatch
dispatch-auction MsgType.keys x h i m r = next r (publishes _ _)
dispatch-auction MsgType.bid x h i m r = next r (bids _ _ _)
dispatch-auction MsgType.masks x h i m r = next r (masks _)
dispatch-auction MsgType.offered x h i m r = next r (offers _ _)
dispatch-auction MsgType.settles x h i m r = next r (settles _ _)
dispatch-auction MsgType.epochstart x h i m r = next r starts
dispatch-auction MsgType.epochchained x h i m r = next r (advances _)
dispatch-auction MsgType.epochtotal x h i m r = next r (adds_total _ _)
dispatch-auction MsgType.epochpartial x h i m r = next r (adds_partial _ _)
dispatch-auction MsgType.epochresult x h i m r = next r (closes _ _)
dispatch-auction MsgType.newepoch x h i m r = next r renews
dispatch-auction MsgType.resets x h i m r = next r resets
dispatch-auction MsgType.hours x h i m r = next r (sets_hour _)
dispatch-auction _ x h i m r = r

settle-order :
    (a : Auction) (now : Bytes) (accepted : Bool) → (settle a now accepted).0.order ≡ a.order
unfolding settle log_trade ready_epoch
settle-order a now accepted = ground arith

audit-order :
    (a : Auction) (i : PeerId) (ct : Bytes)
    → ((start_epoch_chain a).0.order ≡ a.order) × ((submit_epoch_total a i ct).0.order ≡ a.order)
unfolding start_epoch_chain submit_epoch_total
audit-order a i ct = (ground arith, ground arith)

-- A message leaves the seating, the connections and the counter of ids.
abbrev SameTabs : Hub → Hub → Type 0
SameTabs h h' =
    (h'.auction.order ≡ h.auction.order) × (h'.conns ≡ h.conns) × (h'.next_id ≡ h.next_id)

dispatch-SameTabs :
    (t : MsgType) (x : External) (h : Hub) (i : PeerId) (m : Msg)
    → SameTabs h (dispatch t x h i m).0
unfolding dispatch publish_keys set_masks offer advance_epoch_chain submit_epoch_partial close_epoch
    new_epoch reset set_hour
dispatch-SameTabs MsgType.bid x h i m =
    ((submit_bid-SameAudit h.auction i m.key_id m.blob).2, refl, refl)
dispatch-SameTabs MsgType.settles x h i m = (settle-order h.auction x.clock m.ok, refl, refl)
dispatch-SameTabs MsgType.epochstart x h i m = ((audit-order h.auction i m.blob).0, refl, refl)
dispatch-SameTabs MsgType.epochtotal x h i m = ((audit-order h.auction i m.blob).1, refl, refl)
dispatch-SameTabs _ x h i m = (refl, refl, refl)

join-order : (a : Auction) (i : PeerId) → (join a i).order ≡ a.order ++ i ∷ []
unfolding join
join-order a i = refl

leave-order : (a : Auction) (i : PeerId) → (leave a i).order ≡ erase i a.order
unfolding leave check_audit end_round remove_peer
leave-order a i = ground arith

In-append : (x y : PeerId) (xs : List PeerId) → In x (xs ++ y ∷ []) → In x xs ⊎ (y ≡ x)
In-append x y [] h = ground arith
In-append x y (z ∷ xs) h = ground (arith, In-append x y xs)

step-HubInv : (x : External) (h : Hub) (e : Event) → HubInv h → HubInv (step x h e).0
unfolding step connect disconnect handle
step-HubInv x h connects v = record {
  reach = next v.reach (
      joins (suc h.next_id) (λ m.
        absurd (omega (arith, v.issued (suc h.next_id) (subst (In (suc h.next_id)) v.aligned m)))));
  aligned = join-order h.auction (suc h.next_id) ∙ ap (λ l. l ++ suc h.next_id ∷ []) v.aligned;
  issued = λ i m. elim (In-append i (suc h.next_id) h.conns m) [
    | inl old ↦ omega (arith, v.issued i old)
    | inr same ↦ omega (arith, same)
  ];
}
step-HubInv x h (disconnects i) v = record {
  reach = next v.reach (leaves i);
  aligned = leave-order h.auction i ∙ ap (erase i) v.aligned;
  issued = λ j m. v.issued j (In-erase i j h.conns m);
}
step-HubInv x h (message i m) v =
    let (order, conns, counter) = dispatch-SameTabs m.type x h i m in
    record {
      reach = dispatch-auction m.type x h i m v.reach;
      aligned = order ∙ v.aligned ∙ sym conns;
      issued = λ j k. subst (λ n. j ≤ n) (sym counter) (v.issued j (subst (In j) conns k));
    }

run-HubInv : (x : External) (h : Hub) (es : List Event) → HubInv h → HubInv (run x h es)
unfolding run
run-HubInv x h [] v = v
run-HubInv x h (e ∷ es) v = run-HubInv x (step x h e).0 es (step-HubInv x h e v)

-- Whatever tabs connect, disconnect and send, in any order and of any content, the auction only
-- goes through states that its methods reach with new ids, the tabs seated are exactly the open
-- connections, in the same order, and no id was issued beyond the counter.
pub run-Reach :
    (x : External) (es : List Event)
    → let h = run x new_hub es in
      Reach h.auction × (h.auction.order ≡ h.conns) × ((i : PeerId) → In i h.conns → i ≤ h.next_id)
unfolding new_hub new_auction
run-Reach x es =
    let v =
      run-HubInv x new_hub es
        (record { reach = start; aligned = refl; issued = λ i m. absurd m }) in
    (v.reach, v.aligned, v.issued)
