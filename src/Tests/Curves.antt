-- ===== src/Tests/Curves.antt =====
-- A small market at concrete inputs (pkg/ares/pool).
use ares_energy_demo.Prelude.{
  ℕ, ◌≡◌, refl, ℤ, ◌*◌, ◌-◌, ◌^◌, All, map, negsuc, pos, List, [], ◌∷◌, none, some, get_elem?,
  arith,
}
use ares_energy_demo.Pool.Grid.{
  GridSpec, Offer, validate_offers, encode_supply, encode_demand, ok, finite, exact, not_a_number,
  check_offers, validate, len, raise, ceil_ticks, to_int, fine,
}
use ares_energy_demo.Pool.Clearing.{
  SlotResult, no_clearing, derive_allocation, clear_slot, clear_plaintext,
}
use ares_energy_demo.Pool.Market.{clear_plaintext-Least, offered, asked}
use ares_energy_demo.Pool.Encoding.{Plain}
use ares_energy_demo.Pool.Crossing.{Least, Tradable}
use ares_energy_demo.Pool.Allocation.{derive_allocation-Shares, IsPart, Shares}

abbrev grid : GridSpec
grid = record { tick = 10; num_buckets = 4; num_slots = 2 }

-- Two sellers in slot 1, at 5 and at 20.
abbrev sells : List Offer
sells =
    record { slot = pos 1; price_ct = finite (pos 5); quantity = exact (pos 3) }
    ∷ record { slot = pos 1; price_ct = finite (pos 20); quantity = exact (pos 4) }
    ∷ []

-- A buyer at up to 25.
abbrev buys : List Offer
buys = record { slot = pos 1; price_ct = finite (pos 25); quantity = exact (pos 5) } ∷ []

sells-valid : validate_offers grid sells ≡ none
unfolding validate_offers
sells-valid = refl

buys-valid : validate_offers grid buys ≡ none
unfolding validate_offers
buys-valid = refl

sells-Plain : All (Plain grid) sells
sells-Plain = ((omega arith, refl), ((omega arith, refl), tt))

buys-Plain : All (Plain grid) buys
buys-Plain = ((omega arith, refl), tt)

-- A 64-bit processor of one kind makes the least int of what is out of range.
abbrev least_int : ℤ → ℤ
least_int q = negsuc (2 ^ 63 - 1)

clear_plaintext-Least_example :
    (supply : List ℕ) × (demand : List ℕ) × (results : List SlotResult) × (r : SlotResult)
    × (encode_supply least_int grid sells ≡ ok (map some supply))
    × (encode_demand least_int grid buys ≡ ok (map some demand))
    × (clear_plaintext grid supply demand ≡ ok results)
    × (get_elem? results 1 ≡ some r)
    × Least
        (Tradable grid.num_buckets (offered grid sells buys 1) (asked grid sells buys 1))
        r.bucket
clear_plaintext-Least_example =
    clear_plaintext-Least grid sells buys least_int 1 sells-valid buys-valid sells-Plain buys-Plain
      (omega arith)

-- A price of 2^70 ticks is in from bucket 0 on, where the conversion gives the least int, and a NaN
-- quantity passes the checks.
abbrev odd : List Offer
odd =
    record { slot = pos 0; price_ct = finite (pos (10 * 2 ^ 70)); quantity = exact (pos 3) }
    ∷ record { slot = pos 1; price_ct = finite (pos 5); quantity = not_a_number }
    ∷ []

odd_supply :
    encode_supply least_int grid odd
    ≡ ok (some 3 ∷ some 3 ∷ some 3 ∷ some 3 ∷ some 0 ∷ none ∷ none ∷ none ∷ [])
unfolding encode_supply validate_offers check_offers validate len raise ceil_ticks to_int fine
odd_supply = refl

-- At bucket 2 the two sellers have 7 and 5 are asked for.
cleared_market :
    clear_slot grid (0 ∷ 0 ∷ 0 ∷ 0 ∷ 0 ∷ 3 ∷ 7 ∷ 7 ∷ []) (0 ∷ 0 ∷ 0 ∷ 0 ∷ 5 ∷ 5 ∷ 5 ∷ 0 ∷ []) 1
    ≡ record {
      bucket = some 2;
      price_ct = 20;
      supply = 7;
      supply_prev = 3;
      demand = 5;
      cleared = 5;
      marginal = record { num = 2; den = 4 };
      inframarginal = record { num = 1; den = 1 };
    }
unfolding clear_slot
cleared_market = refl

abbrev crossing : SlotResult
crossing = record no_clearing {
  bucket = some 2;
  price_ct = 20;
  supply = 7;
  supply_prev = 3;
  demand = 5;
}

derive_allocation-Shares_example :
    let a = derive_allocation crossing in
    (a.cleared ≡ 5)
    × IsPart a.inframarginal
    × IsPart a.marginal
    × Shares a.supply a.supply_prev a.cleared a.inframarginal a.marginal
derive_allocation-Shares_example = derive_allocation-Shares crossing (omega arith)
