-- ===== src/Pool/Grid.antt =====
-- The price grid of pkg/ares/pool/grid.go and the curves over it. Finite prices and quantities are
-- integers of a smallest unit and are reckoned with exactly, where the code has floats and rounds.
use ares_energy_demo.Prelude.{
  ℕ, zero, suc, ◌+◌, ◌-◌, ◌*◌, ◌/◌, ◌^◌, ℤ, pos, negsuc, Bool, true, false, List, [], ◌∷◌, Option,
  none, some, leb, ltb, nat_beq, if◌then◌else◌,
}

-- TickCt, NumBuckets and NumSlots; a value that is not positive is 0.
pub record GridSpec : Type 0 where
  pub tick : ℕ
  pub num_buckets : ℕ
  pub num_slots : ℕ

-- The errors of grid.go and clearing.go; the offers are numbered from 0.
pub data PoolError : Type 0 where
  bad_tick bad_buckets bad_slots : PoolError
  slot_out_of_range negative_quantity non_finite_price : ℕ → PoolError
  supply_size demand_size : ℕ → PoolError

pub data Result (A : Type 0) : Type 0 where
  ok : A → Result A
  error : PoolError → Result A

-- Validate: `none` is no error.
unfoldable pub validate : GridSpec → Option PoolError
validate g =
    if nat_beq g.tick 0
    then some bad_tick
    else if nat_beq g.num_buckets 0
    then some bad_buckets
    else if nat_beq g.num_slots 0
    then some bad_slots
    else none

unfoldable pub price : GridSpec → ℕ → ℕ
price g bucket = g.tick * bucket

unfoldable pub len : GridSpec → ℕ
len g = g.num_slots * g.num_buckets

abbrev pub index : GridSpec → ℕ → ℕ → ℕ
index g slot bucket = slot * g.num_buckets + bucket

-- A price that is a number, or one that is not or is infinite.
pub data Price : Type 0 where
  finite : ℤ → Price
  non_finite : Price

-- A quantity that is a number, or one that is not or is infinite.
pub data Quantity : Type 0 where
  exact : ℤ → Quantity
  infinite minus_infinite not_a_number : Quantity

pub record Offer : Type 0 where
  pub slot : ℤ
  pub price_ct : Price
  pub quantity : Quantity

abbrev pub outside : GridSpec → ℤ → Bool
outside g (pos n) = leb g.num_slots n
outside g (negsuc n) = true

-- o.Quantity < 0: no test of a NaN holds.
abbrev pub negative : Quantity → Bool
negative (exact (pos n)) = false
negative (exact (negsuc n)) = true
negative minus_infinite = true
negative infinite = false
negative not_a_number = false

abbrev pub no_number : Price → Bool
no_number (finite p) = false
no_number non_finite = true

-- The loop of validateOffers, from offer number i on.
unfoldable pub check_offers : GridSpec → ℕ → List Offer → Option PoolError
check_offers g i [] = none
check_offers g i (o ∷ os) =
    let rest = check_offers g (suc i) os in
    if outside g o.slot
    then some (slot_out_of_range i)
    else if negative o.quantity
    then some (negative_quantity i)
    else if no_number o.price_ct
    then some (non_finite_price i)
    else rest

abbrev pub first_error : Option PoolError → Option PoolError → Option PoolError
first_error none e = e
first_error (some e) _ = some e

unfoldable pub validate_offers : GridSpec → List Offer → Option PoolError
unfolding validate check_offers
validate_offers g os = first_error (validate g) (check_offers g 0 os)

-- A number of a curve; `none` is a float that is infinite or NaN, which stays one in a sum.
abbrev pub Cell : Type 0
Cell = Option ℕ

abbrev pub add_cell : Cell → Cell → Cell
add_cell (some x) (some y) = some (x + y)
add_cell (some x) none = none
add_cell none y = none

abbrev pub repeat : {A : Type 0} → A → ℕ → List A
repeat x zero = []
repeat x (suc n) = x ∷ repeat x n

-- out[i], where i is below the length
abbrev pub at : List ℕ → ℕ → ℕ
at [] i = 0
at (x ∷ xs) zero = x
at (x ∷ xs) (suc i) = at xs i

-- The number of a slot that has passed validateOffers.
abbrev pub magnitude : ℤ → ℕ
magnitude (pos n) = n
magnitude (negsuc n) = 0

-- A quantity that has passed validateOffers.
abbrev pub cell : Quantity → Cell
cell (exact q) = some (magnitude q)
cell _ = none

-- The reciprocal of tickEpsilon.
abbrev pub per_epsilon : ℕ
per_epsilon = 1000000000

-- A tick in units of which tickEpsilon times a tick is `tick`.
unfoldable pub fine : GridSpec → ℕ
fine g = g.tick * per_epsilon

abbrev pub opposite : ℕ → ℤ
opposite zero = pos 0
opposite (suc n) = negsuc n

abbrev pub ceil_div : ℕ → ℕ → ℕ
ceil_div n d = (n + (d - 1)) / d

-- ceil(price / tick - tickEpsilon)
unfoldable pub ceil_ticks : GridSpec → ℤ → ℤ
unfolding fine
ceil_ticks g (pos p) = pos (ceil_div (p * per_epsilon - g.tick) (fine g))
ceil_ticks g (negsuc p) = opposite ((suc p * per_epsilon + g.tick) / fine g)

-- floor(price / tick + tickEpsilon)
unfoldable pub floor_ticks : GridSpec → ℤ → ℤ
unfolding fine
floor_ticks g (pos p) = pos ((p * per_epsilon + g.tick) / fine g)
floor_ticks g (negsuc p) = opposite (ceil_div (suc p * per_epsilon - g.tick) (fine g))

abbrev pub not_below_zero : ℤ → ℕ
not_below_zero (pos n) = n
not_below_zero (negsuc n) = 0

-- How many buckets there are from 0 up to a last one, which is no further than the grid's last.
abbrev pub count_to : GridSpec → ℤ → ℕ
count_to g (pos n) = if leb g.num_buckets n then g.num_buckets else suc n
count_to g (negsuc n) = 0

-- `overflow` is what the platform makes of a float beyond the range of a 64-bit int; Go leaves it
-- to the implementation.
module _ (overflow : ℤ → ℤ) where
  -- int(x) of a float that is a whole number
  unfoldable pub to_int : ℤ → ℤ
  to_int (pos n) = if ltb n (2 ^ 63) then pos n else overflow (pos n)
  to_int (negsuc n) = if ltb n (2 ^ 63) then negsuc n else overflow (negsuc n)

  abbrev pub first_bucket : GridSpec → Price → ℕ
  first_bucket g (finite p) = not_below_zero (to_int (ceil_ticks g p))
  first_bucket g non_finite = 0

  -- How many buckets from 0 on are up to the limit.
  abbrev pub buckets_up_to : GridSpec → Price → ℕ
  buckets_up_to g (finite p) = count_to g (to_int (floor_ticks g p))
  buckets_up_to g non_finite = 0

-- The curves over numbers of any kind, with their sum.
module _ {A : Type 0} (plus : A → A → A) where
  -- out[i] += q
  abbrev pub add_at : ℕ → A → List A → List A
  add_at i q [] = []
  add_at zero q (x ∷ xs) = plus x q ∷ xs
  add_at (suc i) q (x ∷ xs) = x ∷ add_at i q xs

  -- The loop over n buckets from k on.
  unfoldable pub raise : GridSpec → ℕ → A → ℕ → ℕ → List A → List A
  raise g slot q k zero out = out
  raise g slot q k (suc n) out = raise g slot q (suc k) n (add_at (index g slot k) q out)

  module _ (overflow : ℤ → ℤ) (value : Quantity → A) where
    abbrev pub add_supply : GridSpec → Offer → List A → List A
    add_supply g o out =
        let first = first_bucket overflow g o.price_ct in
        raise g (magnitude o.slot) (value o.quantity) first (g.num_buckets - first) out

    abbrev pub add_demand : GridSpec → Offer → List A → List A
    add_demand g o out =
        raise g (magnitude o.slot) (value o.quantity) 0 (buckets_up_to overflow g o.price_ct) out

abbrev pub add_all : {A : Type 0} → (Offer → List A → List A) → List Offer → List A → List A
add_all add [] out = out
add_all add (o ∷ os) out = add_all add os (add o out)

abbrev pub unless_error : Option PoolError → List Cell → Result (List Cell)
unless_error none curve = ok curve
unless_error (some e) curve = error e

module _ (overflow : ℤ → ℤ) where
  unfoldable pub encode_supply : GridSpec → List Offer → Result (List Cell)
  unfolding validate_offers len raise ceil_ticks to_int
  encode_supply g os =
      unless_error (validate_offers g os)
        (add_all (add_supply add_cell overflow cell g) os (repeat (some 0) (len g)))

  unfoldable pub encode_demand : GridSpec → List Offer → Result (List Cell)
  unfolding validate_offers len raise floor_ticks to_int
  encode_demand g os =
      unless_error (validate_offers g os)
        (add_all (add_demand add_cell overflow cell g) os (repeat (some 0) (len g)))
