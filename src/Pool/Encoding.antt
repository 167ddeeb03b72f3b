-- ===== src/Pool/Encoding.antt =====
-- The curves of pkg/ares/pool/grid.go are, up to tickEpsilon, the sums that its comments promise.
use ares_energy_demo.Prelude.{
  ℕ, zero, suc, ◌+◌, ◌-◌, ◌*◌, ◌≤◌, ◌<◌, ◌≡◌, refl, ◌∙◌, ap, ℤ, pos, negsuc, Bool, false, ◌&&◌,
  List, [], ◌∷◌, map, some, none, ltb, leb, nat_beq, if◌then◌else◌, length, All, arith,
}
use ares_energy_demo.Pool.Grid.{
  GridSpec, Offer, Price, finite, non_finite, Quantity, exact, Cell, cell, add_cell, index, at,
  repeat, add_at, raise, add_supply, add_demand, add_all, len, magnitude, no_number, first_bucket,
  count_to, to_int, floor_ticks, buckets_up_to, encode_supply, encode_demand, ok, validate,
  validate_offers, check_offers, outside, negative, unless_error,
}
use ares_energy_demo.Pool.Indices.{length-raise, at-raise}
use ares_energy_demo.Pool.Rounding.{
  asks_up_to, pays_from, WithinReach, first_bucket_lem, buckets_up_to_lem,
}

-- The number of a quantity that is one.
abbrev pub amount : Quantity → ℕ
amount (exact q) = magnitude q
amount _ = 0

-- The offer's price is within reach of the grid, and its quantity is a number.
abbrev pub Plain : GridSpec → Offer → Type 0
Plain g o = WithinReach g o.price_ct × (cell o.quantity ≡ some (amount o.quantity))

-- What the comments on the encoders promise for a slot and a bucket.
abbrev pub total : (Price → Bool) → ℕ → List Offer → ℕ
total within slot [] = 0
total within slot (o ∷ os) =
    (if nat_beq (magnitude o.slot) slot && within o.price_ct then amount o.quantity else 0)
    + total within slot os

count_to-le : (g : GridSpec) (q : ℤ) → count_to g q ≤ g.num_buckets
count_to-le g (pos n) = ground arith
count_to-le g (negsuc n) = omega arith

-- An offer that passes the checks.
record Fair (g : GridSpec) (o : Offer) : Type 0 where
  in_range : outside g o.slot ≡ false
  counted : negative o.quantity ≡ false
  priced : no_number o.price_ct ≡ false

check_offers-Fair :
    (g : GridSpec) (i : ℕ) (o : Offer) (os : List Offer)
    → check_offers g i (o ∷ os) ≡ none
    → Fair g o × (check_offers g (suc i) os ≡ none)
unfolding check_offers
check_offers-Fair g i o os e = (
  record { in_range = ground (arith, e); counted = ground (arith, e); priced = ground (arith, e) },
  ground (arith, e),
)

outside_lem : (g : GridSpec) (s : ℤ) → outside g s ≡ false → magnitude s < g.num_slots
outside_lem g (pos s) h = ground (arith, h)
outside_lem g (negsuc s) h = absurd cc

from_first : (first j n : ℕ) → j < n → leb first j && ltb j (first + (n - first)) ≡ leb first j
from_first first j n h = ground (arith, h)

from_zero : (j n : ℕ) → (leb 0 j && ltb j (0 + n)) ≡ ltb j n
from_zero j n = ground arith

-- Adding numbers to cells that are numbers.
add_at-some :
    (i q : ℕ) (xs : List ℕ)
    → add_at add_cell i (some q) (map some xs) ≡ map some (add_at ◌+◌ i q xs)
add_at-some i q [] = refl
add_at-some zero q (x ∷ xs) = refl
add_at-some (suc i) q (x ∷ xs) = ap (λ t. some x ∷ t) (add_at-some i q xs)

raise-some :
    (g : GridSpec) (slot q k n : ℕ) (xs : List ℕ)
    → raise add_cell g slot (some q) k n (map some xs) ≡ map some (raise ◌+◌ g slot q k n xs)
unfolding raise
raise-some g slot q k zero xs = refl
raise-some g slot q k (suc n) xs =
    ap (raise add_cell g slot (some q) (suc k) n) (add_at-some (index g slot k) q xs)
    ∙ raise-some g slot q (suc k) n (add_at ◌+◌ (index g slot k) q xs)

-- The steps agree, one on cells and one on numbers.
abbrev Agree : (Offer → List Cell → List Cell) → (Offer → List ℕ → List ℕ) → Offer → Type 0
Agree add add' o = (xs : List ℕ) → add o (map some xs) ≡ map some (add' o xs)

add_all-some :
    (add : Offer → List Cell → List Cell) (add' : Offer → List ℕ → List ℕ) (os : List Offer)
    (xs : List ℕ)
    → All (Agree add add') os
    → add_all add os (map some xs) ≡ map some (add_all add' os xs)
add_all-some add add' [] xs a = refl
add_all-some add add' (o ∷ os) xs (h, a) =
    ap (add_all add os) (h xs) ∙ add_all-some add add' os (add' o xs) a

repeat-some : (n : ℕ) → repeat (some 0) n ≡ map some (repeat {A = ℕ} 0 n)
repeat-some zero = refl
repeat-some (suc n) = ap (λ t. some 0 ∷ t) (repeat-some n)

module _ (overflow : ℤ → ℤ) (g : GridSpec) where
  -- The encoders' steps on numbers.
  abbrev supply_step : Offer → List ℕ → List ℕ
  supply_step = add_supply ◌+◌ overflow amount g

  abbrev demand_step : Offer → List ℕ → List ℕ
  demand_step = add_demand ◌+◌ overflow amount g

  steps-Agree :
      (os : List Offer)
      → All (Plain g) os
      → All (Agree (add_supply add_cell overflow cell g) supply_step) os
        × All (Agree (add_demand add_cell overflow cell g) demand_step) os
  steps-Agree [] a = (tt, tt)
  steps-Agree (o ∷ os) (h, a) =
      let slot = magnitude o.slot in
      let q = amount o.quantity in
      let first = first_bucket overflow g o.price_ct in
      let up = buckets_up_to overflow g o.price_ct in
      let rest = steps-Agree os a in
      (
        (
          λ xs.
              ap (λ c. raise add_cell g slot c first (g.num_buckets - first) (map some xs)) h.1
              ∙ raise-some g slot q first (g.num_buckets - first) xs,
          rest.0,
        ),
        (
          λ xs.
              ap (λ c. raise add_cell g slot c 0 up (map some xs)) h.1
              ∙ raise-some g slot q 0 up xs,
          rest.1,
        ),
      )

module _ (overflow : ℤ → ℤ) (g : GridSpec) (ht : 0 < g.tick) (t j : ℕ)
    (hj : j < g.num_buckets) where
  -- What an encoder's step must do with each offer that passes.
  abbrev Adds : (Offer → List ℕ → List ℕ) → (Price → Bool) → Type 0
  Adds add within =
      (o : Offer) (out : List ℕ)
      → Fair g o
      → Plain g o
      → length out ≡ g.num_slots * g.num_buckets
      → (length (add o out) ≡ length out)
        × (at (add o out) (index g t j)
            ≡ at out (index g t j)
              + (if nat_beq (magnitude o.slot) t && within o.price_ct
                  then amount o.quantity
                  else 0))

  buckets_up_to-le : (p : Price) → buckets_up_to overflow g p ≤ g.num_buckets
  buckets_up_to-le (finite p) = count_to-le g (to_int overflow (floor_ticks g p))
  buckets_up_to-le non_finite = omega arith

  asks_lem :
      (p : Price)
      → no_number p ≡ false
      → WithinReach g p
      → (let first = first_bucket overflow g p in
          leb first j && ltb j (first + (g.num_buckets - first)))
        ≡ asks_up_to g j p
  asks_lem (finite p) h k =
      from_first (first_bucket overflow g (finite p)) j g.num_buckets hj
      ∙ first_bucket_lem g ht overflow p j k
  asks_lem non_finite h k = absurd (ground (arith, h))

  add_supply-Adds : Adds (supply_step overflow g) (asks_up_to g j)
  add_supply-Adds o out fair plain sized =
      let first = first_bucket overflow g o.price_ct in
      let slot = magnitude o.slot in
      let q = amount o.quantity in
      (
        length-raise g slot t j q first (g.num_buckets - first) out,
        at-raise g slot t j q first (g.num_buckets - first) out (omega arith)
              (outside_lem g o.slot fair.in_range) hj sized
            ∙ ap (λ b. at out (index g t j) + (if nat_beq slot t && b then q else 0))
                (asks_lem o.price_ct fair.priced plain.0),
      )

  add_demand-Adds : Adds (demand_step overflow g) (pays_from g j)
  add_demand-Adds o out fair plain sized =
      let n = buckets_up_to overflow g o.price_ct in
      let slot = magnitude o.slot in
      let q = amount o.quantity in
      let within : (leb 0 j && ltb j (0 + n)) ≡ pays_from g j o.price_ct =
        from_zero j n ∙ buckets_up_to_lem g ht overflow o.price_ct j plain.0 hj in
      (
        length-raise g slot t j q 0 n out,
        at-raise g slot t j q 0 n out (omega (arith, buckets_up_to-le o.price_ct))
              (outside_lem g o.slot fair.in_range) hj sized
            ∙ ap (λ b. at out (index g t j) + (if nat_beq slot t && b then q else 0)) within,
      )

  at-add_all :
      (add : Offer → List ℕ → List ℕ) (within : Price → Bool)
      → Adds add within
      → (i : ℕ) (os : List Offer) (out : List ℕ) → check_offers g i os ≡ none
      → All (Plain g) os
      → length out ≡ g.num_slots * g.num_buckets
      → at (add_all add os out) (index g t j) ≡ at out (index g t j) + total within t os
  at-add_all add within step i [] out e plain sized = omega arith
  at-add_all add within step i (o ∷ os) out e (plain, rest) sized =
      let split = check_offers-Fair g i o os e in
      let here = step o out split.0 plain sized in
      omega (
        arith,
        here.1,
        at-add_all add within step (suc i) os (add o out) split.1 rest (here.0 ∙ sized),
      )

length-add_all :
    (add : Offer → List ℕ → List ℕ)
    → ((o : Offer) (out : List ℕ) → length (add o out) ≡ length out)
    → (os : List Offer) (out : List ℕ) → length (add_all add os out) ≡ length out
length-add_all add keep [] out = refl
length-add_all add keep (o ∷ os) out = length-add_all add keep os (add o out) ∙ keep o out

length-repeat : (n : ℕ) → length (repeat {A = ℕ} 0 n) ≡ n
length-repeat zero = refl
length-repeat (suc n) = ap suc (length-repeat n)

at-repeat : (n i : ℕ) → at (repeat 0 n) i ≡ 0
at-repeat zero i = refl
at-repeat (suc n) zero = refl
at-repeat (suc n) (suc i) = at-repeat n i

validate_offers-none :
    (g : GridSpec) (os : List Offer)
    → validate_offers g os ≡ none
    → (0 < g.tick) × (check_offers g 0 os ≡ none)
unfolding validate_offers validate
validate_offers-none g os e = ground (arith, e)

module _ (overflow : ℤ → ℤ) (g : GridSpec) (os : List Offer) where
  -- Offers that pass the checks, whose prices are within reach and whose quantities are numbers, are
  -- encoded, with an entry for each bucket of each slot, and the supply at a bucket of a slot is the
  -- sum of the slot's quantities whose price is at most the bucket's, the demand the sum of those whose
  -- price is at least the bucket's, up to tickEpsilon.
  pub encoders_total :
      validate_offers g os ≡ none
      → All (Plain g) os
      → ((curve : List ℕ) × (encode_supply overflow g os ≡ ok (map some curve))
          × (length curve ≡ len g)
          × ((slot k : ℕ)
              → k < g.num_buckets
              → at curve (index g slot k) ≡ total (asks_up_to g k) slot os))
        × ((curve : List ℕ) × (encode_demand overflow g os ≡ ok (map some curve))
            × (length curve ≡ len g)
            × ((slot k : ℕ)
                → k < g.num_buckets
                → at curve (index g slot k) ≡ total (pays_from g k) slot os))
  unfolding encode_supply encode_demand len
  encoders_total e plain =
      let passed = validate_offers-none g os e in
      let size = g.num_slots * g.num_buckets in
      let start : List ℕ = repeat 0 size in
      let sized = length-repeat size in
      let agree = steps-Agree overflow g os plain in
      let sum = λ (step : Offer → List ℕ → List ℕ). add_all step os start in
      (
        (
          sum (supply_step overflow g),
          ap
                (λ v.
                  unless_error v
                    (add_all (add_supply add_cell overflow cell g) os (repeat (some 0) size)))
                e
              ∙ ap ok (
                  ap (add_all (add_supply add_cell overflow cell g) os) (repeat-some size)
                  ∙ add_all-some (add_supply add_cell overflow cell g) (supply_step overflow g) os
                      start agree.0),
          length-add_all (supply_step overflow g)
                (λ o out.
                  length-raise g (magnitude o.slot) 0 0 (amount o.quantity)
                    (first_bucket overflow g o.price_ct)
                    (g.num_buckets - first_bucket overflow g o.price_ct) out)
                os start
              ∙ sized,
          λ slot k h.
              at-add_all overflow g passed.0 slot k h (supply_step overflow g) (asks_up_to g k)
                (add_supply-Adds overflow g passed.0 slot k h) 0 os start passed.1 plain sized
              ∙ ap (λ x. x + total (asks_up_to g k) slot os) (at-repeat size (index g slot k))
              ∙ omega arith,
        ),
        (
          sum (demand_step overflow g),
          ap
                (λ v.
                  unless_error v
                    (add_all (add_demand add_cell overflow cell g) os (repeat (some 0) size)))
                e
              ∙ ap ok (
                  ap (add_all (add_demand add_cell overflow cell g) os) (repeat-some size)
                  ∙ add_all-some (add_demand add_cell overflow cell g) (demand_step overflow g) os
                      start agree.1),
          length-add_all (demand_step overflow g)
                (λ o out.
                  length-raise g (magnitude o.slot) 0 0 (amount o.quantity) 0
                    (buckets_up_to overflow g o.price_ct) out)
                os start
              ∙ sized,
          λ slot k h.
              at-add_all overflow g passed.0 slot k h (demand_step overflow g) (pays_from g k)
                (add_demand-Adds overflow g passed.0 slot k h) 0 os start passed.1 plain sized
              ∙ ap (λ x. x + total (pays_from g k) slot os) (at-repeat size (index g slot k))
              ∙ omega arith,
        ),
      )
