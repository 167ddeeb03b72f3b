-- ===== src/Market.antt =====
-- The public price band of examples/energy_auction/market.go. The prices of the source are decimal
-- literals with two places: they are held here in hundredths of a cent per kWh, which keeps their
-- order. The sine of the sun's height is a parameter.
pub mod Bounds
use ares_energy_demo.Prelude.{
  ℕ, suc, ◌+◌, ◌*◌, ◌%◌, ℤ, pos, negsuc, rem, Bool, ◌||◌, List, [], ◌∷◌, Option, none, some,
  get_elem?, ltb, if◌then◌else◌,
}
use ares_energy_demo.Auction.State.{Float64}

-- A price in hundredths.
abbrev pub Price : Type 0
Price = ℤ

-- One wholesale price for each hour of the day.
unfoldable pub day_prices : List Price
day_prices =
    pos 655
    ∷ pos 545
    ∷ pos 445
    ∷ pos 412
    ∷ pos 463
    ∷ pos 435
    ∷ pos 176
    ∷ pos 48
    ∷ pos 24
    ∷ negsuc 27
    ∷ negsuc 249
    ∷ negsuc 695
    ∷ negsuc 1000
    ∷ negsuc 1353
    ∷ negsuc 1328
    ∷ negsuc 850
    ∷ negsuc 299
    ∷ negsuc 12
    ∷ pos 225
    ∷ pos 679
    ∷ pos 757
    ∷ pos 583
    ∷ pos 446
    ∷ pos 356
    ∷ []

abbrev pub retail_energy_rate : ℕ
retail_energy_rate = 1600

-- `floor_ct` and `cap_ct` are natural numbers: the floor is a maximum with 0.
pub record Band : Type 0 where
  pub hour : ℤ
  pub spot_ct : Price
  pub floor_ct : ℕ
  pub cap_ct : ℕ
  pub pv_fraction : Float64

-- `math.Max(0, spot)`
abbrev pub max_zero : Price → ℕ
max_zero (pos n) = n
max_zero (negsuc n) = 0

abbrev pub cap_floor : ℕ → ℕ
cap_floor floor = if ltb retail_energy_rate floor then retail_energy_rate else floor

-- Sunrise is at 5 and sunset at 21; the middle of the hour is compared, so all is doubled.
unfoldable pub pv_output : (ℕ → Float64) → ℕ → Float64
pv_output sine hour = if ltb (2 * hour + 1) 10 || ltb 42 (2 * hour + 1) then 0 else sine hour

unfoldable pub band_for : (ℕ → Float64) → ℕ → Price → Band
unfolding pv_output
band_for sine hour spot = record {
  hour = pos hour;
  spot_ct = spot;
  floor_ct = cap_floor (max_zero spot);
  cap_ct = retail_energy_rate;
  pv_fraction = pv_output sine hour;
}

abbrev band_if : (ℕ → Float64) → ℕ → Option Price → Option Band
band_if sine hour none = none
band_if sine hour (some spot) = some (band_for sine hour spot)

-- `none` is the index panic of a negative hour.
unfoldable pub band_at : (ℕ → Float64) → ℤ → Option Band
unfolding day_prices band_for
band_at sine h = elim (rem h 24) [
  | pos hour ↦ band_if sine hour (get_elem? day_prices hour)
  | negsuc _ ↦ none
]
