-- ===== src/Prelude/Lists.antt =====
-- Lists measured by native numbers, membership and distinctness as predicates by recursion.
use Prim.Native.Nat.{ℕ, zero, suc, ◌+◌, ◌≤◌, ◌<◌}
use mathlib.Core.Path.{◌≡◌, refl, ap, sym, subst}
use mathlib.Core.Logic.{◌⊎◌, ◌≢◌, inl, inr}
use mathlib.Core.Bool.{Bool, true, false, ◌||◌}
use mathlib.Core.List.{List, [], ◌∷◌, ◌++◌, map}
use mathlib.Core.Option.{Option, none, some}
use native.Mathlib.Omega.{arith}
use ares_energy_demo.Prelude.Tests.{Bool-cases, Eq, ◌==◌, if◌then◌else◌}

module _ {ℓ} {A : Type ℓ} where
  abbrev pub length : List A → ℕ
  length [] = 0
  length (x ∷ xs) = suc (length xs)

  abbrev pub get_elem? : List A → ℕ → Option A
  get_elem? [] i = none
  get_elem? (x ∷ xs) zero = some x
  get_elem? (x ∷ xs) (suc i) = get_elem? xs i

  pub length-append : (xs ys : List A) → length (xs ++ ys) ≡ length xs + length ys
  length-append [] ys = omega arith
  length-append (x ∷ xs) ys = omega (arith, length-append xs ys)

  abbrev pub All {κ} : (A → Type κ) → List A → Type κ
  All P [] = Unit
  All P (x ∷ xs) = P x × All P xs

module _ {A : Type 0} where
  abbrev pub In : A → List A → Type 0
  In a [] = ⊥
  In a (x ∷ xs) = (x ≡ a) ⊎ In a xs

  -- No element occurs twice.
  abbrev pub Distinct : List A → Type 0
  Distinct [] = Unit
  Distinct (x ∷ xs) = ¬ (In x xs) × Distinct xs

pub get_elem?-some {ℓ} :
    {A : Type ℓ} (xs : List A) (n : ℕ) → n < length xs → (x : A) × (get_elem? xs n ≡ some x)
get_elem?-some [] n h = elim h [ ]
get_elem?-some (x ∷ xs) zero h = (x, refl)
get_elem?-some (x ∷ xs) (suc n) h = get_elem?-some xs n (omega arith)

pub length-map {ℓ κ} :
    {A : Type ℓ} {B : Type κ} (f : A → B) (xs : List A) → length (map f xs) ≡ length xs
length-map f [] = refl
length-map f (x ∷ xs) = ap suc (length-map f xs)

module _ {A : Type 0} ⦃e : Eq A⦄ where
  unfoldable pub contains : List A → A → Bool
  contains [] a = false
  contains (x ∷ xs) a = x == a || contains xs a

  -- The first occurrence goes, the order of the rest stays.
  unfoldable pub erase : A → List A → List A
  erase a [] = []
  erase a (x ∷ xs) = if x == a then xs else x ∷ erase a xs

  pub contains→In : (xs : List A) (a : A) → contains xs a ≡ true → In a xs
  unfolding contains
  contains→In [] a h = cc
  contains→In (x ∷ xs) a h = ground (arith, e.beq_iff x a, contains→In xs a)

  pub In→contains : (xs : List A) (a : A) → In a xs → contains xs a ≡ true
  unfolding contains
  In→contains [] a h = elim h [ ]
  In→contains (x ∷ xs) a (inl p) = ground (arith, e.beq_iff x a)
  In→contains (x ∷ xs) a (inr h) = ground (arith, In→contains xs a h)

  pub In-erase : (a b : A) (xs : List A) → In b (erase a xs) → In b xs
  unfolding erase
  In-erase a b [] h = h
  In-erase a b (x ∷ xs) h = ground (arith, In-erase a b xs)

  pub In-erase_ne : (a b : A) (xs : List A) → a ≢ b → In b xs → In b (erase a xs)
  unfolding erase
  In-erase_ne a b [] ne h = elim h [ ]
  In-erase_ne a b (x ∷ xs) ne (inl p) = ground (arith, e.beq_iff x a)
  In-erase_ne a b (x ∷ xs) ne (inr h) = ground (arith, In-erase_ne a b xs ne h)

  pub length-erase : (a : A) (xs : List A) → In a xs → length xs ≡ suc (length (erase a xs))
  unfolding erase
  length-erase a [] h = elim h [ ]
  length-erase a (x ∷ xs) (inl p) = ground (arith, e.beq_iff x a)
  length-erase a (x ∷ xs) (inr h) = ground (arith, length-erase a xs h)

  pub erase-Distinct : (a : A) (xs : List A) → Distinct xs → Distinct (erase a xs)
  unfolding erase
  erase-Distinct a [] d = d
  erase-Distinct a (x ∷ xs) d = ground (arith, erase-Distinct a xs d.1, In-erase a x xs)

  pub erase-absent : (a : A) (xs : List A) → Distinct xs → ¬ (In a (erase a xs))
  unfolding erase
  erase-absent a [] d h = h
  erase-absent a (x ∷ xs) d h = ground (arith, e.beq_iff x a, erase-absent a xs d.1)

  -- Distinct elements of a list are no more than its length.
  pub length-le_of_subset :
      (ks xs : List A) → Distinct ks → ((a : A) → In a ks → In a xs) → length ks ≤ length xs
  length-le_of_subset [] xs d sub = omega arith
  length-le_of_subset (k ∷ ks) xs d sub =
      omega
        (arith, length-erase k xs (sub k (inl refl)), length-le_of_subset ks (erase k xs) d.1 rest)
    where
      rest : (a : A) → In a ks → In a (erase k xs)
      rest a h = In-erase_ne k a xs (λ p. d.0 (subst (λ z. In z ks) (sym p) h)) (sub a (inr h))

  pub In-cases : (a : A) (xs : List A) → In a xs ⊎ (¬ (In a xs))
  In-cases a xs = elim (Bool-cases (contains xs a)) [
    | inl p ↦ inl (contains→In xs a p)
    | inr p ↦ inr (λ h. ground (arith, In→contains xs a h))
  ]

  -- As many distinct elements of a list as it is long are all of it.
  pub subset_of_length_le :
      (ks xs : List A)
      → Distinct ks
      → ((a : A) → In a ks → In a xs)
      → length xs ≤ length ks
      → (a : A) → In a xs
      → In a ks
  subset_of_length_le ks xs d sub le a h = elim (In-cases a ks) [
    | inl m ↦ m
    | inr n ↦ absurd (
        omega (
          arith,
          length-erase a xs h,
          length-le_of_subset ks (erase a xs) d
              λ b m. In-erase_ne a b xs (λ e. n (subst (λ z. In z ks) (sym e) m)) (sub b m),
        ))
  ]

  -- They also make it free of repetitions.
  pub Distinct-of_length_le :
      (ks xs : List A)
      → Distinct ks
      → ((a : A) → In a ks → In a xs)
      → length xs ≤ length ks
      → Distinct xs
  Distinct-of_length_le ks [] d sub le = tt
  Distinct-of_length_le ks (x ∷ xs) d sub le = (
    (λ h. absurd (omega (arith, length-le_of_subset ks xs d (λ a m. ground (arith, sub a m))))),
    Distinct-of_length_le (erase x ks) xs (erase-Distinct x ks d) rest
        (omega (arith, length-erase x ks (subset_of_length_le ks (x ∷ xs) d sub le x (inl refl)))),
  )
    where
      rest : (a : A) → In a (erase x ks) → In a xs
      rest a m = elim (sub a (In-erase x a ks m)) [
        | inl e ↦ absurd (erase-absent x ks d (subst (λ z. In z (erase x ks)) (sym e) m))
        | inr h ↦ h
      ]
