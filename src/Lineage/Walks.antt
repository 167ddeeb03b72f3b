-- ===== src/Lineage/Walks.antt =====
-- What the in-memory store of pkg/ares/lineage/inmemory.go keeps for a session.
use ares_energy_demo.Prelude.{
  ◌≡◌, ◌≢◌, refl, sym, ◌∙◌, ap, subst, [], ◌∷◌, ◌++◌, none, some, arith, ◌==◌, lookup, insert,
  delete, lookup-insert, lookup-delete, All, Bool-cases, Option-cases, inl, inr,
}
use ares_energy_demo.Auction.State.{Bytes}
use ares_energy_demo.Runner.Types.{name_eq, name_beq_iff}
use ares_energy_demo.Lineage.Node.{NodeRef, DagNode}
use ares_energy_demo.Lineage.Store.{
  InMemoryStore, appended, append, append_unless, listed, refs_of, get, resolve, walk_session,
  delete_all, clear,
}
use ares_energy_demo.Lineage.Resolve.{
  Nodes, Held, Indexed, All-map, All-append, resolve-same, resolve-append, insert-held,
  insert-found, delete_all-keeps,
}

-- Appending a node whose hash is free.
module _ (s : InMemoryStore) (node : DagNode) (free : lookup node.hash s.by_hash ≡ none)
    (i : Indexed s) where
  abbrev extended : InMemoryStore
  extended = record {
    by_hash = insert node.hash node s.by_hash;
    by_session =
        insert node.session_id (refs_of s node.session_id ++ (node.hash ∷ [])) s.by_session;
  }

  refs_of-own : refs_of extended node.session_id ≡ refs_of s node.session_id ++ (node.hash ∷ [])
  refs_of-own =
      ap listed {x = lookup node.session_id extended.by_session}
        {y = some (refs_of s node.session_id ++ (node.hash ∷ []))}
        (ground (
          arith,
          lookup-insert node.session_id node.session_id
              (refs_of s node.session_id ++ (node.hash ∷ [])) s.by_session,
          name_beq_iff node.session_id node.session_id,
        ))

  refs_of-other :
      (session : Bytes) → node.session_id ≢ session → refs_of extended session ≡ refs_of s session
  refs_of-other session ne =
      ap listed {x = lookup session extended.by_session} {y = lookup session s.by_session} (
        ground (
          arith,
          lookup-insert node.session_id session (refs_of s node.session_id ++ (node.hash ∷ []))
              s.by_session,
          name_beq_iff node.session_id session,
          ne,
        ))

  still-Held : (session : Bytes) → All (Held extended.by_hash session) (refs_of s session)
  still-Held session =
      All-map (λ r (k, e, o). (k, insert-held node.hash r node k s.by_hash free e, o))
        (refs_of s session) (i session)

  still_resolved :
      (session : Bytes)
      → resolve extended.by_hash (refs_of s session) ≡ resolve s.by_hash (refs_of s session)
  still_resolved session = resolve-same s.by_hash extended.by_hash (refs_of s session) (
      All-map (λ r (k, e, o). insert-held node.hash r node k s.by_hash free e ∙ sym e)
        (refs_of s session) (i session))

  extended-Indexed : Indexed extended
  extended-Indexed session = elim (Bool-cases (node.session_id == session)) [
    | inl p ↦
        subst (λ t. All (Held extended.by_hash t) (refs_of extended t))
          ((name_beq_iff node.session_id session).0 p)
          (subst (All (Held extended.by_hash node.session_id)) (sym refs_of-own) (
            All-append (Held extended.by_hash node.session_id) (refs_of s node.session_id) node.hash
              (still-Held node.session_id) (node, insert-found node.hash node s.by_hash, refl)))
    | inr p ↦
        subst (All (Held extended.by_hash session))
          (sym (refs_of-other session (ground (arith, p, name_beq_iff node.session_id session))))
          (still-Held session)
  ]

-- A store whose sessions list stored nodes of theirs keeps that when Append accepts a node. The
-- node is then found by its hash, the walk of its session gains it at the end, and the walks of the
-- other sessions are as before.
pub append-walk :
    (s s' : InMemoryStore) (node : DagNode)
    → Indexed s
    → append s node ≡ appended s'
    → Indexed s'
      × (get s' node.hash ≡ some node)
      × (walk_session s' node.session_id ≡ walk_session s node.session_id ++ (node ∷ []))
      × ((session : Bytes)
          → node.session_id ≢ session
          → walk_session s' session ≡ walk_session s session)
unfolding append get walk_session
append-walk s s' node i h = elim (Option-cases (lookup node.hash s.by_hash)) [
  | inr (k, e) ↦ absurd (ground (arith, sym (ap (λ o. append_unless o s node) e) ∙ h))
  | inl free ↦
      let same = sym (ap (λ o. append_unless o s node) free) ∙ h in
      let found = insert-found node.hash node s.by_hash in
      subst
        (λ t.
          Indexed t
          × (lookup node.hash t.by_hash ≡ some node)
          × (resolve t.by_hash (refs_of t node.session_id)
              ≡ resolve s.by_hash (refs_of s node.session_id) ++ (node ∷ []))
          × ((session : Bytes)
              → node.session_id ≢ session
              → resolve t.by_hash (refs_of t session) ≡ resolve s.by_hash (refs_of s session)))
        {x = extended s node free i} {y = s'} (ground (arith, same))
        (
          extended-Indexed s node free i,
          found,
          ap (resolve (insert node.hash node s.by_hash)) (refs_of-own s node free i)
              ∙ resolve-append (insert node.hash node s.by_hash) (refs_of s node.session_id)
                  node.hash node found
              ∙ ap (λ t. t ++ (node ∷ [])) (still_resolved s node free i node.session_id),
          λ session ne.
              ap (resolve (insert node.hash node s.by_hash))
                (refs_of-other s node free i session ne)
              ∙ still_resolved s node free i session,
        )
]

apart : (m : Nodes) (x y : Bytes) (q r : NodeRef) → x ≢ y → Held m x q → Held m y r → q ≢ r
apart m x y q r ne (k, e, o) (k', e', o') same =
    ground
      (arith, ap (λ z. lookup z m) same, e, e', o, o', ne, ap (λ t. t.session_id) {x = k} {y = k'})

-- Clearing one session.
module _ (s : InMemoryStore) (x : Bytes) (i : Indexed s) where
  abbrev cleared : InMemoryStore
  cleared = record {
    by_hash = delete_all (refs_of s x) s.by_hash;
    by_session = delete x s.by_session;
  }

  refs_of-cleared : refs_of cleared x ≡ []
  refs_of-cleared =
      ap listed {x = lookup x cleared.by_session} {y = none}
        (ground (arith, lookup-delete x x s.by_session, name_beq_iff x x))

  refs_of-kept : (y : Bytes) → x ≢ y → refs_of cleared y ≡ refs_of s y
  refs_of-kept y ne =
      ap listed {x = lookup y cleared.by_session} {y = lookup y s.by_session}
        (ground (arith, lookup-delete x y s.by_session, name_beq_iff x y, ne))

  kept :
      (y : Bytes)
      → x ≢ y
      → (r : NodeRef) → Held s.by_hash y r
      → lookup r cleared.by_hash ≡ lookup r s.by_hash
  kept y ne r held =
      delete_all-keeps (refs_of s x) r s.by_hash
        (All-map (λ q own. apart s.by_hash x y q r ne own held) (refs_of s x) (i x))

  cleared-Indexed : Indexed cleared
  cleared-Indexed y = elim (Bool-cases (x == y)) [
    | inl p ↦
        subst (λ t. All (Held cleared.by_hash t) (refs_of cleared t)) ((name_beq_iff x y).0 p)
          (subst (All (Held cleared.by_hash x)) (sym refs_of-cleared) tt)
    | inr p ↦
        let ne : x ≢ y = λ e. ground (arith, p, e, name_beq_iff x y) in
        subst (All (Held cleared.by_hash y)) (sym (refs_of-kept y ne))
          (All-map (λ r (k, e, o). (k, kept y ne r (k, e, o) ∙ e, o)) (refs_of s y) (i y))
  ]

-- In a store whose sessions list stored nodes of theirs, Clear leaves nothing to walk in the
-- session that it is given and every walk of another session as before; the sessions of the
-- result list stored nodes of theirs again.
clear-walk :
    (s : InMemoryStore) (x : Bytes)
    → Indexed s
    → Indexed (clear s x)
      × (walk_session (clear s x) x ≡ [])
      × ((y : Bytes) → x ≢ y → walk_session (clear s x) y ≡ walk_session s y)
unfolding clear walk_session
clear-walk s x i = (
  cleared-Indexed s x i,
  ap (resolve (cleared s x i).by_hash) (refs_of-cleared s x i),
  λ y ne.
      ap (resolve ((cleared s x i).by_hash)) (refs_of-kept s x i y ne)
      ∙ resolve-same s.by_hash ((cleared s x i).by_hash) (refs_of s y)
          (All-map (kept s x i y ne) (refs_of s y) (i y)),
)
