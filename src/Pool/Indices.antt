-- ===== src/Pool/Indices.antt =====
-- Where the encoders of pkg/ares/pool/grid.go add, and what stands there then.
use ares_energy_demo.Prelude.{
  ℕ, zero, suc, ◌+◌, ◌-◌, ◌*◌, ◌/◌, ◌≤◌, ◌<◌, ◌≡◌, refl, ◌∙◌, ap, ◌&&◌, List, [], ◌∷◌, ltb, leb,
  nat_beq, if◌then◌else◌, length, arith, Bool-cases, inl, inr,
}
use native.Mathlib.Nat.{mul-le-mul_right, le-div_iff_mul-le, div-lt_iff_lt-mul}
use ares_energy_demo.Pool.Grid.{GridSpec, index, add_at, at, raise, ceil_div}

pub length-add_at : (i q : ℕ) (xs : List ℕ) → length (add_at ◌+◌ i q xs) ≡ length xs
length-add_at i q [] = refl
length-add_at zero q (x ∷ xs) = refl
length-add_at (suc i) q (x ∷ xs) = ap suc (length-add_at i q xs)

at-add_at :
    (i j q : ℕ) (xs : List ℕ)
    → i < length xs
    → at (add_at ◌+◌ i q xs) j ≡ at xs j + (if nat_beq i j then q else 0)
at-add_at i j q [] h = absurd (omega arith)
at-add_at zero zero q (x ∷ xs) h = ground arith
at-add_at zero (suc j) q (x ∷ xs) h = ground arith
at-add_at (suc i) zero q (x ∷ xs) h = ground arith
at-add_at (suc i) (suc j) q (x ∷ xs) h = ground (arith, at-add_at i j q xs (omega arith))

-- Below the number of buckets an index is of one slot and one bucket only.
later_slot : (size s k t j : ℕ) → k < size → s < t → s * size + k < t * size + j
later_slot size s k t j hk h = omega (arith, mul-le-mul_right size h)

index-equal :
    (size s k t j : ℕ)
    → k < size
    → j < size
    → nat_beq (s * size + k) (t * size + j) ≡ (nat_beq s t && nat_beq k j)
index-equal size s k t j hk hj = elim (Bool-cases (nat_beq s t)) [
  | inl e ↦ let same : s ≡ t = ground (arith, e) in simp same (ground arith)
  | inr e ↦ elim (Bool-cases (ltb s t)) [
    | inl l ↦ (ground (arith, l, later_slot size s k t j hk))
    | inr l ↦ simp e (ground (arith, l, e, later_slot size t j s k hj))
  ]
]

below_len : (slots size s k : ℕ) → s < slots → k < size → s * size + k < slots * size
below_len slots size s k hs hk = omega (arith, mul-le-mul_right size hs)

-- A quotient that is rounded up is at most a number exactly if the dividend is at most the product.
pub ceil_le : (t p j : ℕ) → 0 < t → leb (ceil_div p t) j ≡ leb p (t * j)
ceil_le t p j h = ground (arith, div-lt_iff_lt-mul {k = t} {x = p + (t - 1)} {y = suc j} h)

pub floor_ge : (t p j : ℕ) → 0 < t → leb j (p / t) ≡ leb (t * j) p
floor_ge t p j h = ground (arith, le-div_iff_mul-le {k = t} {x = j} {y = p} h)

module _ (g : GridSpec) (slot t j q : ℕ) where
  pub length-raise : (k n : ℕ) (out : List ℕ) → length (raise ◌+◌ g slot q k n out) ≡ length out
  unfolding raise
  length-raise k zero out = refl
  length-raise k (suc n) out =
      length-raise (suc k) n (add_at ◌+◌ (index g slot k) q out)
      ∙ length-add_at (index g slot k) q out

  pub at-raise :
      (k n : ℕ) (out : List ℕ)
      → n ≤ g.num_buckets - k
      → slot < g.num_slots
      → j < g.num_buckets
      → length out ≡ g.num_slots * g.num_buckets
      → at (raise ◌+◌ g slot q k n out) (index g t j)
        ≡ at out (index g t j) + (if nat_beq slot t && (leb k j && ltb j (k + n)) then q else 0)
  unfolding raise
  at-raise k zero out hk hs hj sized = ground arith
  at-raise k (suc n) out hk hs hj sized =
      let here = add_at ◌+◌ (index g slot k) q out in
      let rest =
        at-raise (suc k) n here (omega arith) hs hj
          (length-add_at (index g slot k) q out ∙ sized) in
      let one =
        at-add_at (index g slot k) (index g t j) q out
          (omega (arith, below_len g.num_slots g.num_buckets slot k hs (omega arith))) in
      let which = index-equal g.num_buckets slot k t j (omega arith) hj in
      simp (rest, one, which) (ground arith)
