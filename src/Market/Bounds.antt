-- ===== src/Market/Bounds.antt =====
-- The band of every hour that the auction shows (examples/energy_auction/market.go, auction.go).
use ares_energy_demo.Prelude.{
  ℕ, ◌-◌, ◌%◌, ◌≤◌, ℤ, pos, negsuc, ◌≡◌, refl, some, arith, get_elem?, get_elem?-some,
}
use ares_energy_demo.Auction.State.{Auction, Float64}
use ares_energy_demo.Auction.Round.{set_hour, reset}
use ares_energy_demo.Auction.Invariant.{InDay}
use ares_energy_demo.Auction.Reach.{Reach, Reach-Inv}
use ares_energy_demo.Market.{
  Band, band_at, band_for, day_prices, max_zero, cap_floor, retail_energy_rate,
}

cap_floor-le : (n : ℕ) → cap_floor n ≤ retail_energy_rate
cap_floor-le n = ground arith

-- The hour as an index into the day's prices.
abbrev pub index : ℤ → ℕ
index (pos n) = n
index (negsuc n) = 0

abbrev BandOf : (ℕ → Float64) → ℤ → Band → Type 0
BandOf sine h b =
    (band_at sine h ≡ some b)
    × (b.hour ≡ h)
    × (get_elem? day_prices (index h) ≡ some b.spot_ct)
    × (b.floor_ct ≤ b.cap_ct)

day_band : (sine : ℕ → Float64) (h : ℤ) → InDay h → (b : Band) × BandOf sine h b
unfolding band_at band_for
day_band sine (pos n) d =
    let (p, e) = get_elem?-some day_prices n (unfold day_prices in d) in
    let m : n % 24 ≡ n = omega arith in
    (band_for sine n p, (rw (m, e) refl, refl, e, cap_floor-le (max_zero p)))
day_band sine (negsuc n) d = absurd d

-- In every state that the auction can reach the hour has a band: it is the hour's own, its spot price
-- is the day's at that hour, and its floor is not above its cap.
pub Reach-band :
    (sine : ℕ → Float64) (a : Auction)
    → Reach a
    → (b : Band) × (band_at sine a.hour ≡ some b)
      × (b.hour ≡ a.hour)
      × (get_elem? day_prices (index a.hour) ≡ some b.spot_ct)
      × (b.floor_ct ≤ b.cap_ct)
Reach-band sine a r = let (b, h) = day_band sine a.hour (Reach-Inv r).day in (b, h.0, h.1, h.2, h.3)

-- The hour that is set is the one of the day that is congruent to the given integer, also where that
-- is negative.
set_hour-mod :
    (a : Auction) (n : ℕ)
    → ((set_hour a (pos n)).hour ≡ pos (n % 24))
      × ((set_hour a (negsuc n)).hour ≡ pos (23 - n % 24))
unfolding set_hour reset
set_hour-mod a n = (ground arith, ground arith)
