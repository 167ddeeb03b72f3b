-- ===== src/Pool/Crossing.antt =====
-- Which bucket pkg/ares/pool/clearing.go reports.
use ares_energy_demo.Prelude.{
  ℕ, zero, suc, ◌+◌, ◌-◌, ◌≤◌, ◌<◌, ◌≡◌, subst, List, Option, none, some, ltb, leb, nat_beq, arith,
  Bool-cases, inl, inr,
}
use ares_energy_demo.Pool.Grid.{GridSpec, index, at}
use ares_energy_demo.Pool.Clearing.{
  derive_allocation, crossing_at, find_bucket, cleared_at, clear_slot,
}

-- Above the guard, supply meets a demand that is not 0.
abbrev pub Tradable : ℕ → (ℕ → ℕ) → (ℕ → ℕ) → ℕ → Type 0
Tradable size supply demand k = (0 < k) × (k < size) × (demand k ≤ supply k) × (0 < demand k)

-- The least number with a property, or none where no number has it.
abbrev pub Least : (ℕ → Type 0) → Option ℕ → Type 0
Least P none = (j : ℕ) → ¬ (P j)
Least P (some k) = P k × ((j : ℕ) → P j → k ≤ j)

module _ (g : GridSpec) (supply demand : List ℕ) (slot : ℕ) where
  abbrev pub supply_in : ℕ → ℕ
  supply_in k = at supply (index g slot k)

  abbrev pub demand_in : ℕ → ℕ
  demand_in k = at demand (index g slot k)

  -- The supply does not fall and the demand does not rise with the price.
  pub record Stepped : Type 0 where
    pub rises : (i j : ℕ) → i ≤ j → j < g.num_buckets → supply_in i ≤ supply_in j
    pub falls : (i j : ℕ) → i ≤ j → j < g.num_buckets → demand_in j ≤ demand_in i

  abbrev pub LeastTradable : Option ℕ → Type 0
  LeastTradable = Least (Tradable g.num_buckets supply_in demand_in)

  -- What the loop from k on over n buckets finds.
  Found : ℕ → ℕ → Option ℕ → Type 0
  Found k n none = (j : ℕ) → k ≤ j → j < k + n → supply_in j < demand_in j
  Found k n (some i) =
      (k ≤ i)
      × (i < k + n)
      × (demand_in i ≤ supply_in i)
      × ((j : ℕ) → k ≤ j → j < i → supply_in j < demand_in j)

  from_here :
      (k n : ℕ)
      → supply_in k < demand_in k
      → ((j : ℕ) → suc k ≤ j → j < n → supply_in j < demand_in j)
      → (j : ℕ) → k ≤ j
      → j < n
      → supply_in j < demand_in j
  from_here k n h later j from below = elim (Bool-cases (nat_beq k j)) [
    | inl e ↦ let same : k ≡ j = ground (arith, e) in subst (λ i. supply_in i < demand_in i) same h
    | inr e ↦ later j (ground (arith, e)) below
  ]

  Found-earlier :
      (k n : ℕ) (o : Option ℕ) → supply_in k < demand_in k → Found (suc k) n o → Found k (suc n) o
  unfolding Found
  Found-earlier k n none h found =
      from_here k (k + suc n) h (λ j from below. found j from (omega arith))
  Found-earlier k n (some i) h found = (omega arith, omega arith, found.2, from_here k i h found.3)

  find_bucket-Found : (k n : ℕ) → Found k n (find_bucket g supply demand slot k n)
  unfolding find_bucket Found
  find_bucket-Found k zero = λ j h l. absurd (omega arith)
  find_bucket-Found k (suc n) = elim (Bool-cases (ltb (supply_in k) (demand_in k))) [
    | inl e ↦ simp e (
        Found-earlier k n (find_bucket g supply demand slot (suc k) n) (ground (arith, e))
          (find_bucket-Found (suc k) n))
    | inr e ↦
        simp e (omega arith, omega arith, ground (arith, e), λ j from below. absurd (omega arith))
  ]

  -- The bucket that is reported at the crossing: none where nobody demands.
  dropped_bucket :
      (k : ℕ)
      → demand_in k ≡ 0
      → (derive_allocation (crossing_at g supply demand slot k)).bucket ≡ none
  unfolding derive_allocation
  dropped_bucket k h = ground (arith, h)

  kept_bucket :
      (k : ℕ)
      → demand_in k ≤ supply_in k
      → 0 < demand_in k
      → (derive_allocation (crossing_at g supply demand slot k)).bucket ≡ some k
  unfolding derive_allocation
  kept_bucket k h p = ground (arith, h, p)

  module _ (stepped : Stepped) where
    not_before :
        (k : ℕ)
        → ((j : ℕ) → 1 ≤ j → j < k → supply_in j < demand_in j)
        → (j : ℕ) → Tradable g.num_buckets supply_in demand_in j
        → k ≤ j
    not_before k less j t = elim (Bool-cases (leb k j)) [
      | inl e ↦ ground (arith, e)
      | inr e ↦ absurd (omega (arith, t.2, less j (omega (arith, t.0)) (ground (arith, e))))
    ]

    cleared_at-LeastTradable :
        (o : Option ℕ)
        → Found 1 (g.num_buckets - 1) o
        → LeastTradable (cleared_at g supply demand slot o).bucket
    unfolding Found
    cleared_at-LeastTradable none found =
        λ j t. absurd (omega (arith, t.2, found j (omega (arith, t.0)) (omega (arith, t.1))))
    cleared_at-LeastTradable (some k) found = elim (Bool-cases (nat_beq (demand_in k) 0)) [
      | inl e ↦
          let nobody : demand_in k ≡ 0 = ground (arith, e) in
          simp (dropped_bucket k nobody) (λ j t.
            let after = not_before k found.3 j t in
            absurd (omega (arith, nobody, t.3, stepped.falls k j after t.1)))
      | inr e ↦
          let wanted : 0 < demand_in k = ground (arith, e) in
          simp (kept_bucket k found.2 wanted) (
            (omega (arith, found.0), omega (arith, found.1), found.2, wanted),
            not_before k found.3,
          )
    ]

    -- On curves of which the supply does not fall and the demand does not rise with the price, the
    -- bucket reported for a slot is the least one above bucket 0 at which supply meets a demand that is
    -- not 0, and no bucket is reported only where there is none such.
    pub clear_slot-LeastTradable : LeastTradable (clear_slot g supply demand slot).bucket
    unfolding clear_slot
    clear_slot-LeastTradable =
        cleared_at-LeastTradable (find_bucket g supply demand slot 1 (g.num_buckets - 1))
          (find_bucket-Found 1 (g.num_buckets - 1))
