-- ===== src/Dispatch/Closed.antt =====
-- The lineage store as a graph: which appends keep it closed under parents.
use ares_energy_demo.Prelude.{
  ℕ, ◌≡◌, sym, ◌∙◌, ap, subst, List, [], ◌∷◌, ◌++◌, Option, none, some, ◌==◌, lookup, insert,
  lookup-insert, All, arith, Bool-cases, Option-cases, inl, inr,
}
use ares_energy_demo.Auction.State.{Bytes}
use ares_energy_demo.Runner.Types.{name_eq, name_beq_iff}
use ares_energy_demo.Lineage.Node.{
  NodeRef, DagNode, Parent, is_before, pair_roles, place, sort_stable, refs, sort_parents,
  new_dag_node, signing_message, derive_node_hash,
}
use ares_energy_demo.Lineage.Verify.{
  Signer, committed, parent_hashes, parent_role_names, commit, signed_node,
}
use ares_energy_demo.Lineage.Store.{
  InMemoryStore, append, append_unless, refs_of, resolve, walk_session,
}
use ares_energy_demo.Lineage.Resolve.{insert-held, insert-found, All-map}
use ares_energy_demo.Dispatch.Outputs.{kept}

abbrev pub Stored : InMemoryStore → NodeRef → Type 0
Stored s h = (k : DagNode) × (lookup h s.by_hash ≡ some k)

-- Every stored node is under its own hash, and its parents are stored.
abbrev pub Closed : InMemoryStore → Type 0
Closed s =
    (h : NodeRef) (n : DagNode)
    → lookup h s.by_hash ≡ some n
    → (n.hash ≡ h) × All (Stored s) n.parents

-- Sorting keeps what holds of every reference.
module _ (P : NodeRef → Type 0) where
  refs-pair_roles :
      (ps : List NodeRef) (rs : List Bytes) → All P ps → All P (refs (pair_roles ps rs))
  refs-pair_roles [] rs a = tt
  refs-pair_roles (p ∷ ps) [] a = (a.0, refs-pair_roles ps [] a.1)
  refs-pair_roles (p ∷ ps) (r ∷ rs) a = (a.0, refs-pair_roles ps rs a.1)

  refs-place :
      (x : Parent) (ys : List Parent) → P x.ref → All P (refs ys) → All P (refs (place x ys))
  refs-place x [] h a = (h, tt)
  refs-place x (y ∷ ys) h a = elim (Bool-cases (is_before y.ref x.ref)) [
    | inl e ↦ simp e (a.0, refs-place x ys h a.1)
    | inr e ↦ simp e (h, a)
  ]

  refs-sort_stable : (xs : List Parent) → All P (refs xs) → All P (refs (sort_stable xs))
  refs-sort_stable [] a = tt
  refs-sort_stable (x ∷ xs) a = refs-place x (sort_stable xs) a.0 (refs-sort_stable xs a.1)

  pub sort_parents-All :
      (ps : List NodeRef) (rs : List Bytes) → All P ps → All P (sort_parents ps rs).0
  unfolding sort_parents
  sort_parents-All ps rs a = refs-sort_stable (pair_roles ps rs) (refs-pair_roles ps rs a)

-- Appending a node whose hash is free and whose parents are stored.
module _ (s : InMemoryStore) (node : DagNode) (free : lookup node.hash s.by_hash ≡ none)
    (closed : Closed s) (parents : All (Stored s) node.parents) where
  abbrev more : InMemoryStore
  more = record {
    by_hash = insert node.hash node s.by_hash;
    by_session =
        insert node.session_id (refs_of s node.session_id ++ (node.hash ∷ [])) s.by_session;
  }

  still_Stored : (ps : List NodeRef) → All (Stored s) ps → All (Stored more) ps
  still_Stored ps = All-map (λ r (k, e). (k, insert-held node.hash r node k s.by_hash free e)) ps

  more-Closed : Closed more
  more-Closed h n found = elim (Bool-cases (node.hash == h)) [
    | inl e ↦
        let put : lookup h more.by_hash ≡ some node =
          ground (arith, e, lookup-insert node.hash h node s.by_hash) in
        let same : node ≡ n = ground (arith, put, found) in
        (
          sym (ap (λ z. z.hash) same) ∙ (name_beq_iff node.hash h).0 e,
          subst (λ z. All (Stored more) z.parents) same (still_Stored node.parents parents),
        )
    | inr e ↦
        let old : lookup h s.by_hash ≡ some n =
          ground (arith, e, lookup-insert node.hash h node s.by_hash, found) in
        ((closed h n old).0, still_Stored n.parents (closed h n old).1)
  ]

pub append-Closed :
    (s : InMemoryStore) (node : DagNode)
    → Closed s
    → All (Stored s) node.parents
    → Closed (kept s (append s node))
unfolding append
append-Closed s node closed parents = elim (Option-cases (lookup node.hash s.by_hash)) [
  | inl free ↦
      subst (λ o. Closed (kept s (append_unless o s node))) (sym free)
        (more-Closed s node free closed parents)
  | inr (k, e) ↦ subst (λ o. Closed (kept s (append_unless o s node))) (sym e) closed
]

-- What is stored stays stored.
pub append-Stored :
    (s : InMemoryStore) (node : DagNode) (h : NodeRef)
    → Stored s h
    → Stored (kept s (append s node)) h
unfolding append
append-Stored s node h (k, found) = elim (Option-cases (lookup node.hash s.by_hash)) [
  | inl free ↦
      subst (λ o. Stored (kept s (append_unless o s node)) h) (sym free)
        (k, insert-held node.hash h node k s.by_hash free found)
  | inr (n, e) ↦ subst (λ o. Stored (kept s (append_unless o s node)) h) (sym e) (k, found)
]

-- The node's hash is found afterwards, whether it was there before or not.
pub append-found : (s : InMemoryStore) (node : DagNode) → Stored (kept s (append s node)) node.hash
unfolding append
append-found s node = elim (Option-cases (lookup node.hash s.by_hash)) [
  | inl free ↦
      subst (λ o. Stored (kept s (append_unless o s node)) node.hash) (sym free)
        (node, insert-found node.hash node s.by_hash)
  | inr (n, e) ↦ subst (λ o. Stored (kept s (append_unless o s node)) node.hash) (sym e) (n, e)
]

-- A walk's nodes are stored under their hashes.
resolve-Stored :
    (s : InMemoryStore) (rs : List NodeRef)
    → Closed s
    → All (λ n. Stored s n.hash) (resolve s.by_hash rs)
resolve-Stored s [] closed = tt
resolve-Stored s (r ∷ rs) closed = elim (Option-cases (lookup r s.by_hash)) [
  | inl e ↦ simp e (resolve-Stored s rs closed)
  | inr (n, e) ↦
      simp e ((n, ap (λ h. lookup h s.by_hash) (closed r n e).0 ∙ e), resolve-Stored s rs closed)
]

pub walk-Stored :
    (s : InMemoryStore) (session : Bytes)
    → Closed s
    → All (λ n. Stored s n.hash) (walk_session s session)
unfolding walk_session
walk-Stored s session closed = resolve-Stored s (refs_of s session) closed

parent_hashes-All :
    (P : NodeRef → Type 0) (ns : List DagNode) → All (λ n. P n.hash) ns → All P (parent_hashes ns)
parent_hashes-All P [] a = tt
parent_hashes-All P (n ∷ ns) a = (a.0, parent_hashes-All P ns a.1)

module _ (sha256 : Bytes → NodeRef) (now : ℕ) (s : InMemoryStore) where
  -- The parents of a node that was committed.
  pub commit-parents :
      (session phase role payload : Bytes) (parents : List DagNode) (signer : Option Signer)
      (node : DagNode)
      → All (λ n. Stored s n.hash) parents
      → commit sha256 now session phase role payload parents signer ≡ committed node
      → All (Stored s) node.parents
  unfolding commit new_dag_node
  commit-parents session phase role payload parents none node stored e = absurd (ground (arith, e))
  commit-parents session phase role payload parents (some signer) node stored c =
      let given = parent_hashes parents in
      let sorted = sort_parents given (parent_role_names parents) in
      let message =
        signing_message (derive_node_hash sha256 session phase role payload sorted.0) session phase
          role in
      elim (Option-cases (signer.sign message)) [
        | inl e ↦ absurd (
            ground (
              arith,
              sym (ap (signed_node sha256 now session phase role payload sorted signer) e) ∙ c,
            ))
        | inr (sig, e) ↦
            let made =
              sym (ap (signed_node sha256 now session phase role payload sorted signer) e) ∙ c in
            let node' =
              new_dag_node sha256 now session phase role payload sorted.0 sorted.1 signer.public_key
                sig signer.algorithm_name in
            subst (λ n. All (Stored s) n.parents) {x = node'} {y = node} (ground (arith, made))
              (sort_parents-All (Stored s) sorted.0 sorted.1 (
                sort_parents-All (Stored s) given (parent_role_names parents)
                  (parent_hashes-All (Stored s) parents stored)))
      ]
