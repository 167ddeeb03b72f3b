-- ===== src/Lineage/Store.antt =====
-- inmemory.go of pkg/ares/lineage: the store of committed nodes, indexed by hash and by session.
use ares_energy_demo.Prelude.{List, [], ◌∷◌, ◌++◌, Option, none, some, lookup, insert, delete}
use ares_energy_demo.Auction.State.{Bytes}
use ares_energy_demo.Runner.Types.{name_eq}
use ares_energy_demo.Lineage.Node.{NodeRef, DagNode}

pub record InMemoryStore : Type 0 where
  pub by_hash : List (NodeRef × DagNode)
  pub by_session : List (Bytes × List NodeRef)

abbrev pub new_in_memory_store : InMemoryStore
new_in_memory_store = record { by_hash = []; by_session = [] }

pub data AppendResult : Type 0 where
  appended : InMemoryStore → AppendResult
  node_exists : AppendResult

-- The references of a session: those of a missing key are none.
abbrev pub listed : Option (List NodeRef) → List NodeRef
listed none = []
listed (some rs) = rs

abbrev pub refs_of : InMemoryStore → Bytes → List NodeRef
refs_of s session = listed (lookup session s.by_session)

abbrev pub append_unless : Option DagNode → InMemoryStore → DagNode → AppendResult
append_unless (some _) s node = node_exists
append_unless none s node = appended (record {
  by_hash = insert node.hash node s.by_hash;
  by_session = insert node.session_id (refs_of s node.session_id ++ (node.hash ∷ [])) s.by_session;
})

unfoldable pub append : InMemoryStore → DagNode → AppendResult
append s node = append_unless (lookup node.hash s.by_hash) s node

-- `none` is ErrNodeNotFound.
unfoldable pub get : InMemoryStore → NodeRef → Option DagNode
get s hash = lookup hash s.by_hash

abbrev pub cons_some : Option DagNode → List DagNode → List DagNode
cons_some none ns = ns
cons_some (some n) ns = n ∷ ns

abbrev pub resolve : List (NodeRef × DagNode) → List NodeRef → List DagNode
resolve m [] = []
resolve m (r ∷ rs) = cons_some (lookup r m) (resolve m rs)

unfoldable pub walk_session : InMemoryStore → Bytes → List DagNode
walk_session s session = resolve s.by_hash (refs_of s session)

abbrev pub delete_all : List NodeRef → List (NodeRef × DagNode) → List (NodeRef × DagNode)
delete_all [] m = m
delete_all (r ∷ rs) m = delete_all rs (delete r m)

unfoldable pub clear : InMemoryStore → Bytes → InMemoryStore
clear s session = record {
  by_hash = delete_all (refs_of s session) s.by_hash;
  by_session = delete session s.by_session;
}
