-- ===== src/Dispatch/Outputs.antt =====
-- What the runner commits after a phase's Exit (commitPhaseOutputsIfEnabled and resolveParents of
-- pkg/ares/phase/runner_lineage.go), and CommitArtifact of pkg/ares/phase/context.go. A Go map is read
-- in the order of its list, and SHA-256 and the time of a call are parameters.
use ares_energy_demo.Prelude.{ℕ, List, [], ◌∷◌, Option, none, some, if◌then◌else◌, ◌==◌}
use ares_energy_demo.Auction.State.{Bytes}
use ares_energy_demo.Runner.Types.{Name, name_eq, Phase, ContextSchema}
use ares_energy_demo.Lineage.Node.{NodeRef, DagNode}
use ares_energy_demo.Lineage.Verify.{Signer, CommitError, Committed, committed, uncommitted, commit}
use ares_energy_demo.Lineage.Store.{
  InMemoryStore, AppendResult, appended, node_exists, append, walk_session,
}

-- What the runner reads of a context: its SessionID, and the value of a key where that is a []byte.
pub record Reads (C : Type 0) : Type 0 where
  pub session_of : C → Name
  pub bytes_of : C → Name → Option Bytes

-- The store after Append, whose error ErrNodeExists is no error here.
abbrev pub kept : InMemoryStore → AppendResult → InMemoryStore
kept s (appended s') = s'
kept s node_exists = s

module _ (sha256 : Bytes → NodeRef) (now : ℕ) where
  -- The first node of the walk with a payload's hash.
  unfoldable pub find_payload : NodeRef → List DagNode → Option DagNode
  find_payload hash [] = none
  find_payload hash (n ∷ ns) = if n.payload_hash == hash then some n else find_payload hash ns

  abbrev pub with_node : Option DagNode → List DagNode → List DagNode
  with_node none ns = ns
  with_node (some n) ns = n ∷ ns

  abbrev pub node_of : List DagNode → Option Bytes → Option DagNode
  node_of walk none = none
  node_of walk (some payload) = find_payload (sha256 payload) walk

  -- The nodes of the inputs that have one.
  abbrev pub nodes_of :
      {V : Type 0} → (Name → Option Bytes) → List DagNode → ContextSchema V → List DagNode
  nodes_of read walk [] = []
  nodes_of read walk ((key, t) ∷ keys) =
      with_node (node_of walk (read key)) (nodes_of read walk keys)

  unfoldable pub resolve_parents :
      {C D V : Type 0} → Reads C → Phase D V → C → InMemoryStore → List DagNode
  resolve_parents reads p c s =
      nodes_of (reads.bytes_of c) (walk_session s (reads.session_of c)) p.requires

  -- The committed node is stored and the loop goes on; an error ends it.
  abbrev pub store_node :
      InMemoryStore
      → Committed
      → (InMemoryStore → InMemoryStore × Option CommitError)
      → InMemoryStore × Option CommitError
  store_node s (uncommitted e) again = (s, some e)
  store_node s (committed node) again = again (kept s (append s node))

  abbrev pub commit_output :
      Name
      → Name
      → Name
      → List DagNode
      → Option Signer
      → InMemoryStore
      → Option Bytes
      → (InMemoryStore → InMemoryStore × Option CommitError)
      → InMemoryStore × Option CommitError
  commit_output session phase key parents signer s none again = again s
  commit_output session phase key parents signer s (some payload) again =
      store_node s (commit sha256 now session phase key payload parents signer) again

  unfoldable pub commit_keys :
      {V : Type 0}
      → (Name → Option Bytes)
      → Name
      → Name
      → List DagNode
      → Option Signer
      → ContextSchema V
      → InMemoryStore
      → InMemoryStore × Option CommitError
  unfolding commit append
  commit_keys read session phase parents signer [] s = (s, none)
  commit_keys read session phase parents signer ((key, t) ∷ keys) s =
      let again = commit_keys read session phase parents signer keys in
      if t.no_lineage
      then again s
      else commit_output session phase key parents signer s (read key) again

  unfoldable pub commit_phase_outputs :
      {C D V : Type 0}
      → Reads C
      → Option Signer
      → Phase D V
      → C
      → InMemoryStore
      → InMemoryStore × Option CommitError
  unfolding resolve_parents commit_keys
  commit_phase_outputs reads signer p c s =
      commit_keys (reads.bytes_of c) (reads.session_of c) p.name (resolve_parents reads p c s)
        signer p.provides s

  -- CommitArtifact in a session of a runner with a store and a signer.
  abbrev pub committed_artifact : InMemoryStore → Committed → InMemoryStore × Committed
  committed_artifact s (uncommitted e) = (s, uncommitted e)
  committed_artifact s (committed node) = (kept s (append s node), committed node)

  unfoldable pub commit_artifact :
      InMemoryStore → Signer → Name → Name → Name → Bytes → List DagNode → InMemoryStore × Committed
  unfolding commit append
  commit_artifact s signer session phase role payload parents =
      committed_artifact s (commit sha256 now session phase role payload parents (some signer))
