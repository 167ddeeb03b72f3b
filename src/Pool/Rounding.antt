-- ===== src/Pool/Rounding.antt =====
-- What the encoders of pkg/ares/pool/grid.go make of a price: its buckets, up to tickEpsilon.
use ares_energy_demo.Prelude.{
  ℕ, zero, suc, ◌+◌, ◌-◌, ◌*◌, ◌/◌, ◌^◌, ◌≤◌, ◌<◌, ◌≡◌, refl, ◌∙◌, ap, ℤ, pos, negsuc, Bool, true,
  false, leb, ltb, arith,
}
use native.Mathlib.Nat.{mul-le-mul_left, div-lt_iff_lt-mul}
use ares_energy_demo.Pool.Grid.{
  GridSpec, Price, finite, non_finite, per_epsilon, fine, opposite, ceil_div, ceil_ticks,
  floor_ticks, not_below_zero, count_to, to_int, first_bucket, buckets_up_to,
}
use ares_energy_demo.Pool.Indices.{ceil_le, floor_ge}

-- A bid is at most a bucket's price and tickEpsilon of a tick.
abbrev pub asks_up_to : GridSpec → ℕ → Price → Bool
asks_up_to g k (finite (pos p)) = leb (p * per_epsilon) (fine g * k + g.tick)
asks_up_to g k (finite (negsuc p)) = true
asks_up_to g k non_finite = false

-- A limit and tickEpsilon of a tick are at least a bucket's price.
abbrev pub pays_from : GridSpec → ℕ → Price → Bool
pays_from g k (finite (pos p)) = leb (fine g * k) (p * per_epsilon + g.tick)
pays_from g k (finite (negsuc p)) = leb (fine g * k + suc p * per_epsilon) g.tick
pays_from g k non_finite = false

-- A price of at most 2^62 ticks, up or down.
abbrev pub WithinReach : GridSpec → Price → Type 0
WithinReach g (finite (pos p)) = p ≤ g.tick * 2 ^ 62
WithinReach g (finite (negsuc p)) = suc p ≤ g.tick * 2 ^ 62
WithinReach g non_finite = Unit {0}

-- It lies in the range of a 64-bit int.
abbrev Fits : ℤ → Type 0
Fits (pos n) = n < 2 ^ 63
Fits (negsuc n) = n < 2 ^ 63

quotient-lt : (n d m : ℕ) → 0 < d → n < m * d → n / d < m
quotient-lt n d m h k = (div-lt_iff_lt-mul {k = d} {x = n} {y = m} h).1 k

opposite-Fits : (n : ℕ) → n < 2 ^ 63 → Fits (opposite n)
opposite-Fits zero h = h
opposite-Fits (suc n) h = omega (arith, h)

module _ (g : GridSpec) (ht : 0 < g.tick) where
  fine-pos : (0 < fine g) × (g.tick ≤ fine g)
  unfolding fine
  fine-pos = (omega (arith, ht), omega (arith, ht))

  ceil_ticks-Fits : (p : ℤ) → WithinReach g (finite p) → Fits (ceil_ticks g p)
  unfolding ceil_ticks fine
  ceil_ticks-Fits (pos p) h =
      quotient-lt (p * per_epsilon - g.tick + (g.tick * per_epsilon - 1)) (g.tick * per_epsilon)
        (2 ^ 63) (omega (arith, ht)) (omega (arith, h, ht))
  ceil_ticks-Fits (negsuc p) h =
      opposite-Fits ((suc p * per_epsilon + g.tick) / (g.tick * per_epsilon)) (
        quotient-lt (suc p * per_epsilon + g.tick) (g.tick * per_epsilon) (2 ^ 63)
          (omega (arith, ht)) (omega (arith, h, ht)))

  floor_ticks-Fits : (p : ℤ) → WithinReach g (finite p) → Fits (floor_ticks g p)
  unfolding floor_ticks fine
  floor_ticks-Fits (pos p) h =
      quotient-lt (p * per_epsilon + g.tick) (g.tick * per_epsilon) (2 ^ 63) (omega (arith, ht))
        (omega (arith, h, ht))
  floor_ticks-Fits (negsuc p) h =
      opposite-Fits (ceil_div (suc p * per_epsilon - g.tick) (g.tick * per_epsilon)) (
        quotient-lt (suc p * per_epsilon - g.tick + (g.tick * per_epsilon - 1))
          (g.tick * per_epsilon) (2 ^ 63) (omega (arith, ht)) (omega (arith, h, ht)))

  not_below_zero-opposite : (n : ℕ) → not_below_zero (opposite n) ≡ 0
  not_below_zero-opposite zero = refl
  not_below_zero-opposite (suc n) = refl

  ceil_ticks_lem :
      (p : ℤ) (j : ℕ) → leb (not_below_zero (ceil_ticks g p)) j ≡ asks_up_to g j (finite p)
  unfolding ceil_ticks
  ceil_ticks_lem (pos p) j =
      ground (arith, ceil_le (fine g) (p * per_epsilon - g.tick) j fine-pos.0)
  ceil_ticks_lem (negsuc p) j =
      ap (λ n. leb n j) (not_below_zero-opposite ((suc p * per_epsilon + g.tick) / fine g))
      ∙ ground arith

  count_to-pos : (n j : ℕ) → j < g.num_buckets → ltb j (count_to g (pos n)) ≡ leb j n
  count_to-pos n j h = ground arith

  -- A limit below 0 pays for bucket 0 at most, and for that if tickEpsilon of a tick reaches up to 0.
  below_zero_lem :
      (p c j : ℕ)
      → j < g.num_buckets
      → leb c 0 ≡ leb (suc p * per_epsilon - g.tick) (fine g * 0)
      → ltb j (count_to g (opposite c)) ≡ leb (fine g * j + suc p * per_epsilon) g.tick
  below_zero_lem p zero zero h e = ground (arith, e, h)
  below_zero_lem p zero (suc j) h e =
      let one_more : fine g * 1 ≤ fine g * suc j = mul-le-mul_left (fine g) (omega arith) in
      ground (arith, fine-pos.1, h, one_more)
  below_zero_lem p (suc c) j h e = ground (arith, e)

  floor_ticks_lem :
      (p : ℤ) (j : ℕ)
      → j < g.num_buckets
      → ltb j (count_to g (floor_ticks g p)) ≡ pays_from g j (finite p)
  unfolding floor_ticks
  floor_ticks_lem (pos p) j h =
      count_to-pos ((p * per_epsilon + g.tick) / fine g) j h
      ∙ floor_ge (fine g) (p * per_epsilon + g.tick) j fine-pos.0
  floor_ticks_lem (negsuc p) j h =
      below_zero_lem p (ceil_div (suc p * per_epsilon - g.tick) (fine g)) j h
        (ceil_le (fine g) (suc p * per_epsilon - g.tick) 0 fine-pos.0)

  module _ (overflow : ℤ → ℤ) where
    to_int_lem : (q : ℤ) → Fits q → to_int overflow q ≡ q
    unfolding to_int
    to_int_lem (pos n) h = ground (arith, h)
    to_int_lem (negsuc n) h = ground (arith, h)

    pub first_bucket_lem :
        (p : ℤ) (j : ℕ)
        → WithinReach g (finite p)
        → leb (first_bucket overflow g (finite p)) j ≡ asks_up_to g j (finite p)
    first_bucket_lem p j h =
        ap (λ q. leb (not_below_zero q) j) (to_int_lem (ceil_ticks g p) (ceil_ticks-Fits p h))
        ∙ ceil_ticks_lem p j

    pub buckets_up_to_lem :
        (p : Price) (j : ℕ)
        → WithinReach g p
        → j < g.num_buckets
        → ltb j (buckets_up_to overflow g p) ≡ pays_from g j p
    buckets_up_to_lem (finite p) j h k =
        ap (λ q. ltb j (count_to g q)) (to_int_lem (floor_ticks g p) (floor_ticks-Fits p h))
        ∙ floor_ticks_lem p j k
    buckets_up_to_lem non_finite j h k = ground arith
