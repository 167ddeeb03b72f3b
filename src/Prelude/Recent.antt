-- ===== src/Prelude/Recent.antt =====
-- Parts of lists by number, and a list that keeps its newest elements only.
use ares_energy_demo.Prelude.Tests.{leb, if◌then◌else◌, Bool-cases}
use ares_energy_demo.Prelude.Lists.{length, length-append}
use Prim.Native.Nat.{ℕ, zero, suc, ◌-◌, ◌≤◌, ◌<◌}
use mathlib.Core.Path.{◌≡◌, refl, sym, ap, ◌∙◌}
use mathlib.Core.Logic.{inl, inr}
use mathlib.Core.List.{List, [], ◌∷◌, ◌++◌}
use native.Mathlib.Omega.{arith}

module _ {ℓ} {A : Type ℓ} where
  abbrev pub take : ℕ → List A → List A
  take zero xs = []
  take (suc n) [] = []
  take (suc n) (x ∷ xs) = x ∷ take n xs

  abbrev pub drop : ℕ → List A → List A
  drop zero xs = xs
  drop (suc n) [] = []
  drop (suc n) (x ∷ xs) = drop n xs

  abbrev pub set : List A → ℕ → A → List A
  set [] i v = []
  set (x ∷ xs) zero v = v ∷ xs
  set (x ∷ xs) (suc i) v = x ∷ set xs i v

  abbrev pub tail : List A → List A
  tail [] = []
  tail (x ∷ xs) = xs

  -- The last n elements.
  abbrev pub keep_last : ℕ → List A → List A
  keep_last n xs = drop (length xs - n) xs

  -- A new element at the end; the first one goes where there are n already.
  abbrev pub push_recent : ℕ → List A → A → List A
  push_recent n xs v = (if leb n (length xs) then tail xs else xs) ++ (v ∷ [])

  pub length-drop : (k : ℕ) (xs : List A) → length (drop k xs) ≡ length xs - k
  length-drop zero xs = omega arith
  length-drop (suc k) [] = omega arith
  length-drop (suc k) (x ∷ xs) = omega (arith, length-drop k xs)

  pub tail-drop : (k : ℕ) (xs : List A) → tail (drop k xs) ≡ drop (suc k) xs
  tail-drop zero [] = refl
  tail-drop zero (x ∷ xs) = refl
  tail-drop (suc k) [] = refl
  tail-drop (suc k) (x ∷ xs) = tail-drop k xs

  pub drop-append : (k : ℕ) (xs ys : List A) → k ≤ length xs → drop k (xs ++ ys) ≡ drop k xs ++ ys
  drop-append zero xs ys h = refl
  drop-append (suc k) [] ys h = absurd (omega arith)
  drop-append (suc k) (x ∷ xs) ys h = drop-append k xs ys (omega arith)

  pub take-set :
      (xs : List A) (i : ℕ) (v : A)
      → i < length xs
      → take (suc i) (set xs i v) ≡ take i xs ++ (v ∷ [])
  take-set [] i v h = absurd (omega arith)
  take-set (x ∷ xs) zero v h = refl
  take-set (x ∷ xs) (suc i) v h = ap (λ t. x ∷ t) (take-set xs i v (omega arith))

  pub drop-set : (xs : List A) (i : ℕ) (v : A) → drop (suc i) (set xs i v) ≡ drop (suc i) xs
  drop-set [] i v = refl
  drop-set (x ∷ xs) zero v = refl
  drop-set (x ∷ xs) (suc i) v = drop-set xs i v

  pub take-all : (n : ℕ) (xs : List A) → length xs ≤ n → take n xs ≡ xs
  take-all zero [] h = refl
  take-all zero (x ∷ xs) h = absurd (omega arith)
  take-all (suc n) [] h = refl
  take-all (suc n) (x ∷ xs) h = ap (λ t. x ∷ t) (take-all n xs (omega arith))

  pub length-take : (n : ℕ) (xs : List A) → n ≤ length xs → length (take n xs) ≡ n
  length-take zero xs h = refl
  length-take (suc n) [] h = absurd (omega arith)
  length-take (suc n) (x ∷ xs) h = omega (arith, length-take n xs)

  pub length-set : (xs : List A) (i : ℕ) (v : A) → length (set xs i v) ≡ length xs
  length-set [] i v = refl
  length-set (x ∷ xs) zero v = refl
  length-set (x ∷ xs) (suc i) v = ap suc (length-set xs i v)

  pub drop-all : (k : ℕ) (xs : List A) → length xs ≤ k → drop k xs ≡ []
  drop-all zero [] h = refl
  drop-all zero (x ∷ xs) h = absurd (omega arith)
  drop-all (suc k) [] h = refl
  drop-all (suc k) (x ∷ xs) h = drop-all k xs (omega arith)

  pub tail-append : (xs ys : List A) → 0 < length xs → tail (xs ++ ys) ≡ tail xs ++ ys
  tail-append [] ys h = absurd (omega arith)
  tail-append (x ∷ xs) ys h = refl

  -- Pushing keeps the last elements.
  pub push_recent-keep_last :
      (n : ℕ) (xs : List A) (v : A)
      → 0 < n
      → push_recent n (keep_last n xs) v ≡ keep_last n (xs ++ (v ∷ []))
  push_recent-keep_last n xs v pos = elim (Bool-cases (leb n (length (keep_last n xs)))) [
    | inl e ↦ simp e (
        ap (λ t. t ++ (v ∷ [])) (tail-drop (length xs - n) xs)
        ∙ sym (
            drop-append (suc (length xs - n)) xs (v ∷ [])
              (ground (arith, e, length-drop (length xs - n) xs)))
        ∙ ap (λ k. drop k (xs ++ (v ∷ []))) {x = suc (length xs - n)}
            {y = length (xs ++ (v ∷ [])) - n}
            (ground (arith, e, length-drop (length xs - n) xs, length-append xs (v ∷ []))))
    | inr e ↦ simp e (
        sym (drop-append (length xs - n) xs (v ∷ []) (omega arith))
        ∙ ap (λ k. drop k (xs ++ (v ∷ []))) {x = length xs - n} {y = length (xs ++ (v ∷ [])) - n}
            (ground (arith, e, length-drop (length xs - n) xs, length-append xs (v ∷ []))))
  ]

pub drop-nil {ℓ} : (A : Type ℓ) (k : ℕ) → drop {A = A} k [] ≡ []
drop-nil A zero = refl
drop-nil A (suc k) = refl
