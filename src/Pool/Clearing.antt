-- ===== src/Pool/Clearing.antt =====
-- The clearing of pkg/ares/pool/clearing.go, for curves of finite numbers. A ratio is a numerator over
-- a positive denominator, and a result without a bucket has all fields 0.
use ares_energy_demo.Prelude.{
  ℕ, zero, suc, ◌-◌, not, ◌&&◌, List, [], ◌∷◌, Option, none, some, ltb, nat_beq, if◌then◌else◌,
  length,
}
use ares_energy_demo.Pool.Grid.{
  GridSpec, PoolError, supply_size, demand_size, Result, ok, error, validate, price, len, index, at,
}

pub record Ratio : Type 0 where
  pub num : ℕ
  pub den : ℕ

abbrev pub none_of_it : Ratio
none_of_it = record { num = 0; den = 1 }

abbrev pub all_of_it : Ratio
all_of_it = record { num = 1; den = 1 }

pub record SlotResult : Type 0 where
  pub bucket : Option ℕ
  pub price_ct : ℕ
  pub supply : ℕ
  pub supply_prev : ℕ
  pub demand : ℕ
  pub cleared : ℕ
  pub marginal : Ratio
  pub inframarginal : Ratio

-- NoClearing
abbrev pub no_clearing : SlotResult
no_clearing = record {
  bucket = none;
  price_ct = 0;
  supply = 0;
  supply_prev = 0;
  demand = 0;
  cleared = 0;
  marginal = none_of_it;
  inframarginal = none_of_it;
}

abbrev pub inframarginal_ratio : ℕ → ℕ → Ratio
inframarginal_ratio prev cleared =
    if ltb cleared prev && ltb 0 prev then record { num = cleared; den = prev } else all_of_it

-- The ratio of the tranche that takes what is left, from 0 to 1; a difference below 0 gives 0.
abbrev pub marginal_ratio : ℕ → ℕ → ℕ → Ratio
marginal_ratio supply prev cleared =
    if ltb prev supply
    then (if ltb cleared prev
        then none_of_it
        else if ltb (supply - prev) (cleared - prev)
        then all_of_it
        else record { num = cleared - prev; den = supply - prev })
    else none_of_it

unfoldable pub derive_allocation : SlotResult → SlotResult
derive_allocation r =
    let cleared = (if ltb r.demand r.supply then r.demand else r.supply) in
    if nat_beq cleared 0 then no_clearing else record r {
      cleared = cleared;
      inframarginal = inframarginal_ratio r.supply_prev cleared;
      marginal = marginal_ratio r.supply r.supply_prev cleared;
    }

-- The result at the crossing, before the allocation.
abbrev pub crossing_at : GridSpec → List ℕ → List ℕ → ℕ → ℕ → SlotResult
crossing_at g supply demand slot k = record {
  bucket = some k;
  price_ct = price g k;
  supply = at supply (index g slot k);
  supply_prev = (if ltb 0 k then at supply (index g slot (k - 1)) else 0);
  demand = at demand (index g slot k);
  cleared = 0;
  marginal = none_of_it;
  inframarginal = none_of_it;
}

-- The first of n buckets from k on whose excess supply is not negative.
unfoldable pub find_bucket : GridSpec → List ℕ → List ℕ → ℕ → ℕ → ℕ → Option ℕ
find_bucket g supply demand slot k zero = none
find_bucket g supply demand slot k (suc n) =
    let rest = find_bucket g supply demand slot (suc k) n in
    if ltb (at supply (index g slot k)) (at demand (index g slot k)) then rest else some k

abbrev pub cleared_at : GridSpec → List ℕ → List ℕ → ℕ → Option ℕ → SlotResult
cleared_at g supply demand slot none = no_clearing
cleared_at g supply demand slot (some k) = derive_allocation (crossing_at g supply demand slot k)

unfoldable pub clear_slot : GridSpec → List ℕ → List ℕ → ℕ → SlotResult
unfolding find_bucket derive_allocation price
clear_slot g supply demand slot =
    cleared_at g supply demand slot (find_bucket g supply demand slot 1 (g.num_buckets - 1))

-- The loop over n slots from a slot on.
abbrev pub clear_slots : GridSpec → List ℕ → List ℕ → ℕ → ℕ → List SlotResult
clear_slots g supply demand slot zero = []
clear_slots g supply demand slot (suc n) =
    clear_slot g supply demand slot ∷ clear_slots g supply demand (suc slot) n

abbrev pub or_error : Option PoolError → Result (List SlotResult) → Result (List SlotResult)
or_error none r = r
or_error (some e) r = error e

unfoldable pub clear_plaintext : GridSpec → List ℕ → List ℕ → Result (List SlotResult)
unfolding validate len clear_slot
clear_plaintext g supply demand = or_error (validate g) (
    if not (nat_beq (length supply) (len g))
    then error (supply_size (length supply))
    else if not (nat_beq (length demand) (len g))
    then error (demand_size (length demand))
    else ok (clear_slots g supply demand 0 g.num_slots))
