-- ===== src/Dispatch/Commits.antt =====
-- What the runner commits keeps the lineage store closed.
use ares_energy_demo.Prelude.{
  ℕ, ◌≡◌, refl, List, [], ◌∷◌, Option, none, some, ◌==◌, All, Bool-cases, inl, inr,
}
use ares_energy_demo.Auction.State.{Bytes}
use ares_energy_demo.Runner.Types.{Name, name_eq, Phase, ContextSchema}
use ares_energy_demo.Lineage.Node.{NodeRef, DagNode}
use ares_energy_demo.Lineage.Verify.{Signer, Committed, committed, uncommitted, CommitError, commit}
use ares_energy_demo.Lineage.Store.{InMemoryStore, append, walk_session}
use ares_energy_demo.Lineage.Resolve.{All-map}
use ares_energy_demo.Dispatch.Outputs.{
  Reads, kept, find_payload, with_node, node_of, nodes_of, resolve_parents, store_node,
  commit_output, commit_keys, commit_phase_outputs, commit_artifact, committed_artifact,
}
use ares_energy_demo.Dispatch.Closed.{
  Stored, Closed, append-Closed, append-Stored, walk-Stored, commit-parents,
}

module _ (sha256 : Bytes → NodeRef) (now : ℕ) where
  module _ (Q : DagNode → Type 0) where
    -- What holds of each node of the walk holds of the node that is found.
    Found : Option DagNode → Type 0
    Found none = Unit
    Found (some n) = Q n

    find_payload-All :
        (hash : NodeRef) (ns : List DagNode) → All Q ns → Found (find_payload sha256 now hash ns)
    unfolding find_payload Found
    find_payload-All hash [] a = tt
    find_payload-All hash (n ∷ ns) a = elim (Bool-cases (n.payload_hash == hash)) [
      | inl e ↦ simp e a.0
      | inr e ↦ simp e (find_payload-All hash ns a.1)
    ]

    node_of-Found :
        (ns : List DagNode) (o : Option Bytes) → All Q ns → Found (node_of sha256 now ns o)
    unfolding Found
    node_of-Found ns none a = tt
    node_of-Found ns (some payload) a = find_payload-All (sha256 payload) ns a

    with_node-All :
        (o : Option DagNode) (ns : List DagNode)
        → Found o
        → All Q ns
        → All Q (with_node sha256 now o ns)
    unfolding Found
    with_node-All none ns h a = a
    with_node-All (some n) ns h a = (h, a)

    nodes_of-All :
        {V : Type 0} (read : Name → Option Bytes) (walk : List DagNode) (keys : ContextSchema V)
        → All Q walk
        → All Q (nodes_of sha256 now read walk keys)
    nodes_of-All read walk [] a = tt
    nodes_of-All read walk ((key, t) ∷ keys) a =
        with_node-All (node_of sha256 now walk (read key)) (nodes_of sha256 now read walk keys)
          (node_of-Found walk (read key) a) (nodes_of-All read walk keys a)

  abbrev AllStored : InMemoryStore → List DagNode → Type 0
  AllStored s parents = All (λ n. Stored s n.hash) parents

  module _ (session phase : Name) (parents : List DagNode) (signer : Option Signer) where
    store-Closed :
        (s : InMemoryStore) (role payload : Bytes) (o : Committed)
        (again : InMemoryStore → InMemoryStore × Option CommitError)
        → commit sha256 now session phase role payload parents signer ≡ o
        → AllStored s parents
        → Closed s
        → ((s' : InMemoryStore) → AllStored s' parents → Closed s' → Closed (again s').0)
        → Closed (store_node sha256 now s o again).0
    store-Closed s role payload (uncommitted x) again e stored closed next = closed
    store-Closed s role payload (committed node) again e stored closed next =
        next (kept s (append s node))
          (All-map (λ n h. append-Stored s node n.hash h) parents stored)
          (append-Closed s node closed
            (commit-parents sha256 now s session phase role payload parents signer node stored e))

    commit_output-Closed :
        (s : InMemoryStore) (key : Name) (o : Option Bytes)
        (again : InMemoryStore → InMemoryStore × Option CommitError)
        → AllStored s parents
        → Closed s
        → ((s' : InMemoryStore) → AllStored s' parents → Closed s' → Closed (again s').0)
        → Closed (commit_output sha256 now session phase key parents signer s o again).0
    commit_output-Closed s key none again stored closed next = next s stored closed
    commit_output-Closed s key (some payload) again stored closed next =
        store-Closed s key payload (commit sha256 now session phase key payload parents signer)
          again refl stored closed next

    commit_keys-Closed :
        {V : Type 0} (read : Name → Option Bytes) (keys : ContextSchema V) (s : InMemoryStore)
        → AllStored s parents
        → Closed s
        → Closed (commit_keys sha256 now read session phase parents signer keys s).0
    unfolding commit_keys
    commit_keys-Closed read [] s stored closed = closed
    commit_keys-Closed read ((key, t) ∷ keys) s stored closed = elim (Bool-cases t.no_lineage) [
      | inl e ↦ simp e (commit_keys-Closed read keys s stored closed)
      | inr e ↦ simp e (
          commit_output-Closed s key (read key)
            (commit_keys sha256 now read session phase parents signer keys) stored closed
            (commit_keys-Closed read keys))
    ]

  -- The outputs' nodes have parents that the store holds.
  pub commit_phase_outputs-Closed :
      {C D V : Type 0} (reads : Reads C) (signer : Option Signer) (p : Phase D V) (c : C)
      (s : InMemoryStore)
      → Closed s
      → Closed (commit_phase_outputs sha256 now reads signer p c s).0
  unfolding commit_phase_outputs resolve_parents
  commit_phase_outputs-Closed reads signer p c s closed =
      let parents = resolve_parents sha256 now reads p c s in
      commit_keys-Closed (reads.session_of c) p.name parents signer (reads.bytes_of c) p.provides s
        (nodes_of-All (λ n. Stored s n.hash) (reads.bytes_of c)
          (walk_session s (reads.session_of c)) p.requires
          (walk-Stored s (reads.session_of c) closed))
        closed

  -- An artifact that is committed with stored parents keeps the store closed.
  pub commit_artifact-Closed :
      (s : InMemoryStore) (signer : Signer) (session phase role : Name) (payload : Bytes)
      (parents : List DagNode)
      → Closed s
      → AllStored s parents
      → Closed (commit_artifact sha256 now s signer session phase role payload parents).0
  unfolding commit_artifact
  commit_artifact-Closed s signer session phase role payload parents closed stored =
      artifact-Closed (commit sha256 now session phase role payload parents (some signer)) refl
    where
      artifact-Closed :
          (o : Committed)
          → commit sha256 now session phase role payload parents (some signer) ≡ o
          → Closed (committed_artifact sha256 now s o).0
      artifact-Closed (uncommitted x) e = closed
      artifact-Closed (committed node) e = append-Closed s node closed (
          commit-parents sha256 now s session phase role payload parents (some signer) node stored
            e)
