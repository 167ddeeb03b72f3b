-- ===== src/Auction/Audit.antt =====
-- The N-of-N audit of an epoch in examples/energy_auction/auction.go: the keygen chain, the shares
-- that complete it and the frozen party.
use ares_energy_demo.Prelude.{
  nat_eq, suc, ◌+◌, ◌<◌, ◌≡◌, refl, ap, ◌≢◌, ◌↔◌, true, false, List, [], ◌∷◌, map, Option, none,
  some, arith, inl, inr, Bool-cases, Option-cases, length, get_elem?, lookup, insert,
  get_elem?-some,
}
use ares_energy_demo.Auction.State.{Bytes, PeerId, Auction, epoch_audit, is_audit}
use ares_energy_demo.Auction.Epoch.{
  start_epoch_chain, advance_epoch_chain, next_peer, chain_done, has_entry, all_have, have_all,
  submit_epoch_total, collect, epoch_ciphertexts, open_audit,
}

-- The shares that the chain has folded in, one after the other.
pub advance_all : Auction → List Bytes → Auction
advance_all a [] = a
advance_all a (pk ∷ pks) = advance_all (advance_epoch_chain a pk).0 pks

advance_all-state :
    (a : Auction) (pks : List Bytes)
    → ((advance_all a pks).chain_pos ≡ a.chain_pos + length pks)
      × ((advance_all a pks).epoch_party ≡ a.epoch_party)
unfolding advance_all advance_epoch_chain
advance_all-state a [] = (omega arith, refl)
advance_all-state a (pk ∷ pks) =
    let (p, q) = advance_all-state (advance_epoch_chain a pk).0 pks in (omega (arith, p), q)

visits :
    (s : Auction) (pks : List Bytes) (pk : Bytes)
    → s.chain_pos ≡ 0
    → let r = advance_epoch_chain (advance_all s pks) pk in
      (suc (length pks) < length s.epoch_party
        → (i : PeerId) × (r.1 ≡ next_peer (some i))
          × (get_elem? s.epoch_party (suc (length pks)) ≡ some i))
      × (suc (length pks) ≡ length s.epoch_party → (r.1 ≡ chain_done) × (r.0.epoch_key ≡ pk))
unfolding advance_epoch_chain
visits s pks pk z =
    let (e, e') = advance_all-state s pks in
    (
      (λ h.
          let (i, q) = get_elem?-some s.epoch_party (suc (length pks)) h in
          (i, ground (arith, e, e', q), q)),
      (λ h. (ground (arith, e, e'), refl)),
    )

-- The chain that a press of the button starts, while no audit runs, goes once through the tabs
-- present, in joining order: the first is asked at the start, after each share but the last the
-- next one is asked, and the share of the last one completes the joint key, which is that share.
pub chain_visits_all :
    (a : Auction) (pks : List Bytes) (pk : Bytes)
    → is_audit a.epoch ≡ false
    → let s = start_epoch_chain a in
      let r = advance_epoch_chain (advance_all s.0 pks) pk in
      (s.1 ≡ get_elem? a.order 0)
      × (suc (length pks) < length a.order
          → (i : PeerId) × (r.1 ≡ next_peer (some i))
            × (get_elem? a.order (suc (length pks)) ≡ some i))
      × (suc (length pks) ≡ length a.order → (r.1 ≡ chain_done) × (r.0.epoch_key ≡ pk))
unfolding start_epoch_chain
chain_visits_all a pks pk h = let w = visits (open_audit a) pks pk refl in rw h (refl, w.0, w.1)

has_entry-some :
    (m : List (PeerId × Bytes)) (i : PeerId)
    → has_entry m i ≡ true
    → (ct : Bytes) × (lookup i m ≡ some ct)
has_entry-some m i h = elim (Option-cases (lookup i m)) [
  | inl e ↦ absurd (ground arith)
  | inr (ct, e) ↦ (ct, e)
]

-- The entries are collected one for one exactly when every member has one.
collect_one :
    (m : List (PeerId × Bytes)) (i : PeerId) (is : List PeerId)
    → all_have m (i ∷ is) ≡ true
    → (all_have m is ≡ true) × (has_entry m i ≡ true)
unfolding all_have
collect_one m i is h = ground arith

collect_all :
    (m : List (PeerId × Bytes)) (party : List PeerId)
    → all_have m party ≡ true
    → map some (collect m party) ≡ map (λ i. lookup i m) party
unfolding collect
collect_all m [] h = refl
collect_all m (i ∷ is) h =
    let (rest, here) = collect_one m i is h in
    let (ct, e) = has_entry-some m i here in
    rw (e, collect) (ap (◌∷◌ (some ct)) (collect_all m is rest))

some_tail :
    {A : Type 0} (x : A) (xs : List A) (ys : List (Option A))
    → map some (x ∷ xs) ≡ some x ∷ ys
    → map some xs ≡ ys
some_tail x xs ys h = cc

some-ne-none : {A : Type 0} (xs : List A) (ys : List (Option A)) → map some xs ≢ none ∷ ys
some-ne-none [] ys h = cc
some-ne-none (x ∷ xs) ys h = cc

all_have_of_collect :
    (m : List (PeerId × Bytes)) (party : List PeerId)
    → map some (collect m party) ≡ map (λ i. lookup i m) party
    → all_have m party ≡ true
unfolding collect all_have
all_have_of_collect m [] h = refl
all_have_of_collect m (i ∷ is) h = elim (Option-cases (lookup i m)) [
  | inl e ↦ absurd (some-ne-none (collect m is) (map (λ j. lookup j m) is) (rw (e, collect) at h))
  | inr (ct, e) ↦
      rw (e, has_entry)
        (all_have_of_collect m is (some_tail ct (collect m is) _ (rw (e, collect) at h)))
]

-- An encrypted total completes the sum exactly when an audit runs, its party is not empty and the
-- ciphertexts to be summed are then the totals of its members, one each, in the party's order.
pub submit_epoch_total_iff :
    (a : Auction) (i : PeerId) (ct : Bytes)
    → let b = (submit_epoch_total a i ct).0 in
      ((submit_epoch_total a i ct).1 ≡ true) ↔ (
        (a.epoch ≡ epoch_audit)
        × (0 < length b.epoch_party)
        × (map some (epoch_ciphertexts b) ≡ map (λ j. lookup j b.epoch_totals) b.epoch_party))
unfolding submit_epoch_total epoch_ciphertexts have_all
submit_epoch_total_iff a i ct = elim (Bool-cases (is_audit a.epoch)) [
  | inl e ↦ rw e (
    (λ h. (
      ground arith,
      ground arith,
      collect_all (insert i ct a.epoch_totals) a.epoch_party (ground arith),
    )),
    (λ h. ground (arith, all_have_of_collect (insert i ct a.epoch_totals) a.epoch_party h.2, h.1)),
  )
  | inr e ↦ rw e ((λ h. cc), (λ h. ground (arith, e, h.0)))
]
