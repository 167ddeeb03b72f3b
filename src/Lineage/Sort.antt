-- ===== src/Lineage/Sort.antt =====
-- The canonical order of a node's parents (sortParents of pkg/ares/lineage/node.go).
use ares_energy_demo.Prelude.{
  ◌≡◌, refl, ◌∙◌, ap, true, false, List, [], ◌∷◌, arith, Bool-cases, inl, inr,
}
use ares_energy_demo.Auction.State.{Bytes}
use ares_energy_demo.Lineage.Node.{
  NodeRef, Parent, is_before, pair_roles, place, sort_stable, refs, roles, sort_parents,
}

-- The element may stand before the list.
abbrev pub Leads : Parent → List Parent → Type 0
Leads x [] = Unit {0}
Leads x (y ∷ ys) = is_before y.ref x.ref ≡ false

abbrev pub Ordered : List Parent → Type 0
Ordered [] = Unit {0}
Ordered (x ∷ xs) = Leads x xs × Ordered xs

is_before-asymmetric : (a b : Bytes) → is_before a b ≡ true → is_before b a ≡ false
is_before-asymmetric [] [] h = refl
is_before-asymmetric [] (b ∷ bs) h = refl
is_before-asymmetric (a ∷ us) [] h = absurd (ground (arith, h))
is_before-asymmetric (a ∷ us) (b ∷ bs) h = ground (arith, is_before-asymmetric us bs)

place-Leads :
    (y x : Parent) (xs : List Parent)
    → is_before y.ref x.ref ≡ true
    → Leads y xs
    → Leads y (place x xs)
place-Leads y x [] h l = is_before-asymmetric y.ref x.ref h
place-Leads y x (z ∷ zs) h l = elim (Bool-cases (is_before z.ref x.ref)) [
  | inl p ↦ simp p l
  | inr p ↦ simp p (is_before-asymmetric y.ref x.ref h)
]

place-Ordered : (x : Parent) (xs : List Parent) → Ordered xs → Ordered (place x xs)
place-Ordered x [] o = (tt, tt)
place-Ordered x (y ∷ ys) (l, o) = elim (Bool-cases (is_before y.ref x.ref)) [
  | inl p ↦ simp p (place-Leads y x ys p l, place-Ordered x ys o)
  | inr p ↦ simp p (refl, (l, o))
]

pub sort_stable-Ordered : (xs : List Parent) → Ordered (sort_stable xs)
sort_stable-Ordered [] = tt
sort_stable-Ordered (x ∷ xs) = place-Ordered x (sort_stable xs) (sort_stable-Ordered xs)

place-leader : (x : Parent) (xs : List Parent) → Leads x xs → place x xs ≡ x ∷ xs
place-leader x [] l = refl
place-leader x (y ∷ ys) l = simp l

pub sort_stable-fixes : (xs : List Parent) → Ordered xs → sort_stable xs ≡ xs
sort_stable-fixes [] o = refl
sort_stable-fixes (x ∷ xs) (l, o) = ap (place x) (sort_stable-fixes xs o) ∙ place-leader x xs l

pair_roles-split : (xs : List Parent) → pair_roles (refs xs) (roles xs) ≡ xs
pair_roles-split [] = refl
pair_roles-split (x ∷ xs) = ap (λ t. x ∷ t) (pair_roles-split xs)

-- Sorting the parents and their roles a second time changes neither list.
pub sort_parents_idempotent :
    (parents : List NodeRef) (parent_roles : List Bytes)
    → let (sorted, sorted_roles) = sort_parents parents parent_roles in
      sort_parents sorted sorted_roles ≡ (sorted, sorted_roles)
unfolding sort_parents
sort_parents_idempotent parents parent_roles =
    let indexed = sort_stable (pair_roles parents parent_roles) in
    ap (λ t. (refs t, roles t))
      (ap sort_stable (pair_roles-split indexed)
        ∙ sort_stable-fixes indexed (sort_stable-Ordered (pair_roles parents parent_roles)))
