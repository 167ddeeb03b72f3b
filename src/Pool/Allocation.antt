-- ===== src/Pool/Allocation.antt =====
-- How pkg/ares/pool/clearing.go rations the sellers.
use ares_energy_demo.Prelude.{
  ℕ, ◌+◌, ◌-◌, ◌*◌, ◌≤◌, ◌<◌, ◌≡◌, refl, ◌∙◌, ap, ltb, nat_beq, if◌then◌else◌, arith, Bool-cases,
  inl, inr,
}
use ares_energy_demo.Pool.Clearing.{
  Ratio, SlotResult, derive_allocation, inframarginal_ratio, marginal_ratio, none_of_it, all_of_it,
}

-- A part of a whole: from 0 to 1.
abbrev pub IsPart : Ratio → Type 0
IsPart r = (0 < r.den) × (r.num ≤ r.den)

-- The cheaper sellers' part of the supply before the bucket and the marginal sellers' part of the
-- tranche add up to what is cleared, multiplied out.
abbrev pub Shares : ℕ → ℕ → ℕ → Ratio → Ratio → Type 0
Shares supply prev cleared infra marginal =
    infra.num * prev * marginal.den + marginal.num * (supply - prev) * infra.den
    ≡ cleared * infra.den * marginal.den

inframarginal-IsPart : (prev cleared : ℕ) → IsPart (inframarginal_ratio prev cleared)
inframarginal-IsPart prev cleared = ground arith

marginal-IsPart : (supply prev cleared : ℕ) → IsPart (marginal_ratio supply prev cleared)
marginal-IsPart supply prev cleared = ground arith

oversupplied_lem :
    (supply prev cleared : ℕ)
    → cleared < prev
    → (inframarginal_ratio prev cleared ≡ record { num = cleared; den = prev })
      × (marginal_ratio supply prev cleared ≡ none_of_it)
oversupplied_lem supply prev cleared h = (ground (arith, h), ground (arith, h))

rationed_lem :
    (supply prev cleared : ℕ)
    → prev ≤ cleared
    → cleared ≤ supply
    → prev < supply
    → (inframarginal_ratio prev cleared ≡ all_of_it)
      × (marginal_ratio supply prev cleared ≡ record { num = cleared - prev; den = supply - prev })
rationed_lem supply prev cleared h c p = (ground (arith, h), ground (arith, h, c, p))

flat_lem :
    (supply prev cleared : ℕ)
    → prev ≤ cleared
    → supply ≤ prev
    → (inframarginal_ratio prev cleared ≡ all_of_it)
      × (marginal_ratio supply prev cleared ≡ none_of_it)
flat_lem supply prev cleared h p = (ground (arith, h), ground (arith, p))

product_lem : (prev rest tranche : ℕ) → prev * tranche + rest * tranche ≡ (prev + rest) * tranche
product_lem prev rest tranche = omega arith

ratios-Shares :
    (supply prev cleared : ℕ)
    → prev ≤ supply
    → cleared ≤ supply
    → Shares supply prev cleared
        (inframarginal_ratio prev cleared)
        (marginal_ratio supply prev cleared)
ratios-Shares supply prev cleared hp hc = elim (Bool-cases (ltb cleared prev)) [
  | inl e ↦
      let ratios = oversupplied_lem supply prev cleared (ground (arith, e)) in
      rw ratios.0 (rw ratios.1 (omega arith))
  | inr e ↦ elim (Bool-cases (ltb prev supply)) [
    | inl p ↦
        let ratios = rationed_lem supply prev cleared (ground (arith, e)) hc (ground (arith, p)) in
        let whole : prev + (cleared - prev) ≡ cleared = ground (arith, e) in
        rw ratios.0 (
          rw ratios.1 (
            omega (
              arith,
              product_lem prev (cleared - prev) (supply - prev)
                  ∙ ap (λ c. c * (supply - prev)) whole,
            )))
    | inr p ↦
        let ratios = flat_lem supply prev cleared (ground (arith, e)) (ground (arith, p)) in
        let all : prev ≡ cleared = ground (arith, e, p) in rw ratios.0 (rw ratios.1 (omega arith))
  ]
]

-- Where the supply of the bucket before is not above the bucket's own, the allocation clears the
-- smaller of supply and demand, both ratios lie from 0 to 1, and the two parts of the sellers, each
-- its ratio of its quantity, add up to what is cleared (multiplied out by both denominators).
pub derive_allocation-Shares :
    (r : SlotResult)
    → r.supply_prev ≤ r.supply
    → let a = derive_allocation r in
      (a.cleared ≡ (if ltb r.demand r.supply then r.demand else r.supply))
      × IsPart a.inframarginal
      × IsPart a.marginal
      × Shares a.supply a.supply_prev a.cleared a.inframarginal a.marginal
unfolding derive_allocation
derive_allocation-Shares r h =
    elim (Bool-cases (nat_beq (if ltb r.demand r.supply then r.demand else r.supply) 0)) [
      | inl e ↦
          simp e (ground (arith, e), (omega arith, omega arith), (omega arith, omega arith), refl)
      | inr e ↦ simp e (
        refl,
        inframarginal-IsPart r.supply_prev _,
        marginal-IsPart r.supply r.supply_prev _,
        ratios-Shares r.supply r.supply_prev _ h (ground arith),
      )
    ]
