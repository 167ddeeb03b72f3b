-- ===== src/Prelude/Maps.antt =====
-- A Go map as an association list: one entry for each key, a new key goes last.
use ares_energy_demo.Prelude.Tests.{Eq, ◌==◌, if◌then◌else◌, Bool-cases}
use ares_energy_demo.Prelude.Lists.{length, In, Distinct}
use Prim.Native.Nat.{suc}
use mathlib.Core.Path.{◌≡◌, refl, ap}
use mathlib.Core.Logic.{◌⊎◌, inl, inr}
use mathlib.Core.List.{List, [], ◌∷◌}
use mathlib.Core.Option.{Option, none, some}
use native.Mathlib.Omega.{arith}

module _ {K V : Type 0} where
  abbrev pub keys : List (K × V) → List K
  keys [] = []
  keys ((k, v) ∷ m) = k ∷ keys m

module _ {K V : Type 0} ⦃e : Eq K⦄ where
  unfoldable pub lookup : K → List (K × V) → Option V
  lookup k [] = none
  lookup k ((j, v) ∷ es) = if j == k then some v else lookup k es

  unfoldable pub insert : K → V → List (K × V) → List (K × V)
  insert k v [] = (k, v) ∷ []
  insert k v ((j, u) ∷ es) = if j == k then (k, v) ∷ es else (j, u) ∷ insert k v es

  unfoldable pub delete : K → List (K × V) → List (K × V)
  delete k [] = []
  delete k ((j, u) ∷ es) = if j == k then delete k es else (j, u) ∷ delete k es

  pub lookup-insert :
      (k j : K) (v : V) (es : List (K × V))
      → lookup j (insert k v es) ≡ (if k == j then some v else lookup j es)
  unfolding lookup insert
  lookup-insert k j v [] = refl
  lookup-insert k j v ((i, u) ∷ es) =
      ground (arith, e.beq_iff k j, e.beq_iff i k, e.beq_iff i j, lookup-insert k j v es)

  pub lookup-delete :
      (k j : K) (es : List (K × V))
      → lookup j (delete k es) ≡ (if k == j then none else lookup j es)
  unfolding lookup delete
  lookup-delete k j [] = ground arith
  lookup-delete k j ((i, u) ∷ es) =
      ground (arith, e.beq_iff k j, e.beq_iff i k, e.beq_iff i j, lookup-delete k j es)

  pub In-keys-insert :
      (k j : K) (v : V) (m : List (K × V)) → In j (keys (insert k v m)) → (k ≡ j) ⊎ In j (keys m)
  unfolding insert
  In-keys-insert k j v [] h = ground arith
  In-keys-insert k j v ((i, w) ∷ m) h = ground (arith, e.beq_iff i k, In-keys-insert k j v m)

  pub keys-insert-In :
      (k j : K) (v : V) (m : List (K × V)) → In j (keys m) → In j (keys (insert k v m))
  unfolding insert
  keys-insert-In k j v [] h = elim h [ ]
  keys-insert-In k j v ((i, w) ∷ m) h = ground (arith, e.beq_iff i k, keys-insert-In k j v m)

  pub keys-insert_self : (k : K) (v : V) (m : List (K × V)) → In k (keys (insert k v m))
  unfolding insert
  keys-insert_self k v [] = inl refl
  keys-insert_self k v ((i, w) ∷ m) = ground (arith, e.beq_iff i k, keys-insert_self k v m)

  pub insert-Distinct :
      (k : K) (v : V) (m : List (K × V)) → Distinct (keys m) → Distinct (keys (insert k v m))
  unfolding insert
  insert-Distinct k v [] d = ground arith
  insert-Distinct k v ((i, w) ∷ m) d =
      ground (arith, e.beq_iff i k, insert-Distinct k v m, In-keys-insert k i v m)

  pub lookup-In : (k : K) (v : V) (m : List (K × V)) → lookup k m ≡ some v → In k (keys m)
  unfolding lookup
  lookup-In k v [] h = cc
  lookup-In k v ((i, w) ∷ m) h = ground (arith, e.beq_iff i k, lookup-In k v m)

  pub In-lookup : (k : K) (m : List (K × V)) → In k (keys m) → (v : V) × (lookup k m ≡ some v)
  unfolding lookup
  In-lookup k [] h = elim h [ ]
  In-lookup k ((i, w) ∷ m) h = elim (Bool-cases (i == k)) [
    | inl p ↦ (w, ground arith)
    | inr p ↦ let (v, q) = In-lookup k m (ground (arith, e.beq_iff i k)) in (v, ground arith)
  ]

module _ {K V : Type 0} where
  pub length-keys : (m : List (K × V)) → length (keys m) ≡ length m
  length-keys [] = refl
  length-keys ((k, v) ∷ m) = ap suc (length-keys m)
