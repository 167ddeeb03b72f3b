-- ===== src/Tests/Audits.antt =====
-- The audit of an epoch at concrete inputs (examples/energy_auction/auction.go).
use ares_energy_demo.Prelude.{
  ◌≡◌, refl, true, [], ◌∷◌, In, length, get_elem?, ◌<◌, inl, inr, lookup, nat_eq, map, some, ◌↔◌,
}
use ares_energy_demo.Auction.State.{PeerId, Auction, epoch_audit, new_auction}
use ares_energy_demo.Auction.Epoch.{
  start_epoch_chain, open_audit, submit_epoch_total, advance_epoch_chain, next_peer, chain_done,
  epoch_ciphertexts,
}
use ares_energy_demo.Auction.Seats.{join}
use ares_energy_demo.Auction.Round.{publish_keys}
use ares_energy_demo.Auction.Reach.{Reach, next, starts}
use ares_energy_demo.Auction.Audit.{chain_visits_all, submit_epoch_total_iff, advance_all}
use ares_energy_demo.Auction.Party.{audit_party_present}
use ares_energy_demo.Tests.Rounds.{seated, keyed, keyed-Reach}

chain_visits_all_example :
    let s = start_epoch_chain seated in
    let r = advance_epoch_chain (advance_all s.0 ((5 ∷ []) ∷ [])) (6 ∷ []) in
    (s.1 ≡ get_elem? seated.order 0)
    × (2 < length seated.order
        → (i : PeerId) × (r.1 ≡ next_peer (some i)) × (get_elem? seated.order 2 ≡ some i))
    × (2 ≡ length seated.order → (r.1 ≡ chain_done) × (r.0.epoch_key ≡ 6 ∷ []))
unfolding new_auction join
chain_visits_all_example = chain_visits_all seated ((5 ∷ []) ∷ []) (6 ∷ []) refl

-- The audit runs.
abbrev audited : Auction
audited = (start_epoch_chain keyed).0

audited-Reach : Reach audited
audited-Reach = next keyed-Reach starts

submit_epoch_total_iff_example :
    let b = (submit_epoch_total audited 1 (3 ∷ [])).0 in
    ((submit_epoch_total audited 1 (3 ∷ [])).1 ≡ true) ↔ (
      (audited.epoch ≡ epoch_audit)
      × (0 < length b.epoch_party)
      × (map some (epoch_ciphertexts b) ≡ map (λ j. lookup j b.epoch_totals) b.epoch_party))
submit_epoch_total_iff_example = submit_epoch_total_iff audited 1 (3 ∷ [])

audit_party_present_example : In 2 audited.order
unfolding new_auction join publish_keys start_epoch_chain open_audit
audit_party_present_example = audit_party_present audited-Reach refl 2 (inr (inr (inl refl)))
