-- ===== src/Pool/Market.antt =====
-- The encoders and the clearing of pkg/ares/pool together.
use ares_energy_demo.Prelude.{
  ℕ, zero, suc, ◌+◌, ◌≤◌, ◌<◌, ◌≡◌, refl, sym, ◌∙◌, ap, ℤ, map, All, pos, negsuc, Bool, true, List,
  [], ◌∷◌, Option, none, some, nat_beq_iff, length, get_elem?, arith,
}
use native.Mathlib.Nat.{mul-le-mul_left}
use ares_energy_demo.Pool.Grid.{
  GridSpec, Offer, Price, finite, non_finite, fine, index, at, len, validate, validate_offers,
  encode_supply, encode_demand, ok,
}
use ares_energy_demo.Pool.Clearing.{SlotResult, clear_slot, clear_slots, clear_plaintext}
use ares_energy_demo.Pool.Rounding.{asks_up_to, pays_from}
use ares_energy_demo.Pool.Encoding.{Plain, total, encoders_total}
use ares_energy_demo.Pool.Crossing.{Stepped, Least, Tradable, clear_slot-LeastTradable}

total-le :
    (f h : Price → Bool) (slot : ℕ) (os : List Offer)
    → ((p : Price) → f p ≡ true → h p ≡ true)
    → total f slot os ≤ total h slot os
total-le f h slot [] imp = omega arith
total-le f h slot (o ∷ os) imp = ground (arith, imp o.price_ct, total-le f h slot os imp)

asks_up_to-le :
    (g : GridSpec) (i j : ℕ) (p : Price) → i ≤ j → asks_up_to g i p ≡ true → asks_up_to g j p ≡ true
asks_up_to-le g i j (finite (pos p)) h e = ground (arith, e, mul-le-mul_left (fine g) h)
asks_up_to-le g i j (finite (negsuc p)) h e = refl
asks_up_to-le g i j non_finite h e = e

pays_from-le :
    (g : GridSpec) (i j : ℕ) (p : Price) → i ≤ j → pays_from g j p ≡ true → pays_from g i p ≡ true
pays_from-le g i j (finite (pos p)) h e = ground (arith, e, mul-le-mul_left (fine g) h)
pays_from-le g i j (finite (negsuc p)) h e = ground (arith, e, mul-le-mul_left (fine g) h)
pays_from-le g i j non_finite h e = e

get_elem?-clear_slots :
    (g : GridSpec) (supply demand : List ℕ) (first n slot : ℕ)
    → slot < n
    → get_elem? (clear_slots g supply demand first n) slot
      ≡ some (clear_slot g supply demand (first + slot))
get_elem?-clear_slots g supply demand first zero slot h = absurd (omega arith)
get_elem?-clear_slots g supply demand first (suc n) zero h =
    ap (λ s. some (clear_slot g supply demand s)) (omega arith)
get_elem?-clear_slots g supply demand first (suc n) (suc slot) h =
    get_elem?-clear_slots g supply demand (suc first) n slot (omega arith)
    ∙ ap (λ s. some (clear_slot g supply demand s)) {x = suc first + slot} {y = first + suc slot}
        (omega arith)

-- Properties that agree have the same least number.
Least-agree :
    (P Q : ℕ → Type 0)
    → ((k : ℕ) → P k → Q k)
    → ((k : ℕ) → Q k → P k)
    → (o : Option ℕ) → Least P o
    → Least Q o
Least-agree P Q to from none least = λ j q. least j (from j q)
Least-agree P Q to from (some k) least = (to k least.0, λ j q. least.1 j (from j q))

Tradable-agree :
    (size : ℕ) (s d s' d' : ℕ → ℕ)
    → ((k : ℕ) → k < size → (s k ≡ s' k) × (d k ≡ d' k))
    → (k : ℕ) → Tradable size s d k
    → Tradable size s' d' k
Tradable-agree size s d s' d' same k t =
    let here = same k t.1 in
    (t.0, t.1, omega (arith, here.0, here.1, t.2), omega (arith, here.1, t.3))

module _ (g : GridSpec) (sells buys : List Offer) where
  -- What is offered and asked in a slot at a bucket's price.
  abbrev pub offered : ℕ → ℕ → ℕ
  offered slot k = total (asks_up_to g k) slot sells

  abbrev pub asked : ℕ → ℕ → ℕ
  asked slot k = total (pays_from g k) slot buys

  module _ (supply demand : List ℕ) (slot : ℕ)
      (s_is : (k : ℕ) → k < g.num_buckets → at supply (index g slot k) ≡ offered slot k)
      (d_is : (k : ℕ) → k < g.num_buckets → at demand (index g slot k) ≡ asked slot k) where
    totals-Stepped : Stepped g supply demand slot
    totals-Stepped = record {
      rises = λ i j h l. omega (
        arith,
        s_is i (omega arith),
        s_is j l,
        total-le (asks_up_to g i) (asks_up_to g j) slot sells (λ p. asks_up_to-le g i j p h),
      );
      falls = λ i j h l. omega (
        arith,
        d_is i (omega arith),
        d_is j l,
        total-le (pays_from g j) (pays_from g i) slot buys (λ p. pays_from-le g i j p h),
      );
    }

    slot-Least :
        Least
          (Tradable g.num_buckets (offered slot) (asked slot))
          (clear_slot g supply demand slot).bucket
    slot-Least =
        Least-agree
          (Tradable g.num_buckets (λ k. at supply (index g slot k))
            (λ k. at demand (index g slot k)))
          (Tradable g.num_buckets (offered slot) (asked slot))
          (Tradable-agree g.num_buckets (λ k. at supply (index g slot k))
            (λ k. at demand (index g slot k)) (offered slot) (asked slot)
            (λ k l. (s_is k l, d_is k l)))
          (Tradable-agree g.num_buckets (offered slot) (asked slot)
            (λ k. at supply (index g slot k)) (λ k. at demand (index g slot k))
            (λ k l. (sym (s_is k l), sym (d_is k l))))
          (clear_slot g supply demand slot).bucket
          (clear_slot-LeastTradable g supply demand slot totals-Stepped)

  clear_plaintext-ok :
      (supply demand : List ℕ)
      → validate g ≡ none
      → length supply ≡ len g
      → length demand ≡ len g
      → clear_plaintext g supply demand ≡ ok (clear_slots g supply demand 0 g.num_slots)
  unfolding clear_plaintext
  clear_plaintext-ok supply demand e hs hd =
      simp
        (e, (nat_beq_iff (length supply) (len g)).1 hs, (nat_beq_iff (length demand) (len g)).1 hd)
        refl

  validate_offers-validate : validate_offers g sells ≡ none → validate g ≡ none
  unfolding validate_offers
  validate_offers-validate e = ground (arith, e)

  -- Where the offers of both sides pass the checks, their prices are of at most 2^62 ticks up or down
  -- and their quantities are finite numbers, both are encoded, with curves of finite numbers, the
  -- curves are cleared, and every slot has a result. Its bucket is the least one above bucket 0 at
  -- whose price, up to tickEpsilon of a tick, something is asked and no more than is offered; where no
  -- price of the grid is such, there is none.
  pub clear_plaintext-Least :
      (overflow : ℤ → ℤ) (slot : ℕ)
      → validate_offers g sells ≡ none
      → validate_offers g buys ≡ none
      → All (Plain g) sells
      → All (Plain g) buys
      → slot < g.num_slots
      → (supply : List ℕ) × (demand : List ℕ) × (results : List SlotResult) × (r : SlotResult)
        × (encode_supply overflow g sells ≡ ok (map some supply))
        × (encode_demand overflow g buys ≡ ok (map some demand))
        × (clear_plaintext g supply demand ≡ ok results)
        × (get_elem? results slot ≡ some r)
        × Least (Tradable g.num_buckets (offered slot) (asked slot)) r.bucket
  clear_plaintext-Least overflow slot hs hd ps pd h =
      let s = (encoders_total overflow g sells hs ps).0 in
      let d = (encoders_total overflow g buys hd pd).1 in
      (
        s.0,
        d.0,
        clear_slots g s.0 d.0 0 g.num_slots,
        clear_slot g s.0 d.0 slot,
        s.1,
        d.1,
        clear_plaintext-ok s.0 d.0 (validate_offers-validate hs) s.2 d.2,
        get_elem?-clear_slots g s.0 d.0 0 g.num_slots slot h
            ∙ ap (λ t. some (clear_slot g s.0 d.0 t)) {x = 0 + slot} {y = slot} (omega arith),
        slot-Least s.0 d.0 slot (s.3 slot) (d.3 slot),
      )
