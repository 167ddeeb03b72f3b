-- ===== src/Lineage/Node.antt =====
-- node.go of pkg/ares/lineage: the nodes of the provenance DAG and what is hashed and signed.
-- SHA-256 is a parameter; a reference is the list of its bytes.
use ares_energy_demo.Prelude.{
  ℕ, ◌/◌, ◌%◌, Bool, true, false, List, [], ◌∷◌, ◌++◌, length, ltb, if◌then◌else◌,
}
use ares_energy_demo.Auction.State.{Bytes}

abbrev pub NodeRef : Type 0
NodeRef = Bytes

pub record DagNode : Type 0 where
  pub hash : NodeRef
  pub session_id : Bytes
  pub phase_id : Bytes
  pub role : Bytes
  pub parents : List NodeRef
  pub parent_roles : List Bytes
  pub payload_hash : NodeRef
  pub created_at : ℕ
  pub producer : Bytes
  pub signature : Bytes
  pub algorithm : Bytes

-- `binary.BigEndian.PutUint32` of `uint32(n)`.
unfoldable pub u32 : ℕ → Bytes
u32 n = (n / 16777216) % 256 ∷ (n / 65536) % 256 ∷ (n / 256) % 256 ∷ n % 256 ∷ []

unfoldable pub write_len_prefixed : Bytes → Bytes
write_len_prefixed b = u32 (length b) ++ b

abbrev pub concat : List Bytes → Bytes
concat [] = []
concat (b ∷ bs) = b ++ concat bs

-- What DeriveNodeHash writes into SHA-256, from the hash of the payload.
unfoldable pub preimage : Bytes → Bytes → Bytes → NodeRef → List NodeRef → Bytes
preimage session phase role payload_hash sorted =
    write_len_prefixed session
    ++ (write_len_prefixed phase
        ++ (write_len_prefixed role
            ++ (write_len_prefixed payload_hash ++ (u32 (length sorted) ++ concat sorted))))

unfoldable pub signing_message : NodeRef → Bytes → Bytes → Bytes → Bytes
signing_message hash session phase role =
    hash ++ (write_len_prefixed session ++ (write_len_prefixed phase ++ write_len_prefixed role))

-- A parent's reference with its role.
pub record Parent : Type 0 where
  pub ref : NodeRef
  pub parent_role : Bytes

-- `bytes.Compare(a, b) < 0`.
abbrev pub is_before : Bytes → Bytes → Bool
is_before _ [] = false
is_before [] (b ∷ bs) = true
is_before (a ∷ us) (b ∷ bs) = if ltb a b then true else if ltb b a then false else is_before us bs

-- The `indexed` slice of sortParents: a missing role is the empty string.
abbrev pub pair_roles : List NodeRef → List Bytes → List Parent
pair_roles [] _ = []
pair_roles (p ∷ ps) [] = record { ref = p; parent_role = [] } ∷ pair_roles ps []
pair_roles (p ∷ ps) (r ∷ rs) = record { ref = p; parent_role = r } ∷ pair_roles ps rs

-- `sort.SliceStable` by reference: equal references keep their order.
abbrev pub place : Parent → List Parent → List Parent
place x [] = x ∷ []
place x (y ∷ ys) = if is_before y.ref x.ref then y ∷ place x ys else x ∷ y ∷ ys

abbrev pub sort_stable : List Parent → List Parent
sort_stable [] = []
sort_stable (x ∷ xs) = place x (sort_stable xs)

abbrev pub refs : List Parent → List NodeRef
refs [] = []
refs (x ∷ xs) = x.ref ∷ refs xs

abbrev pub roles : List Parent → List Bytes
roles [] = []
roles (x ∷ xs) = x.parent_role ∷ roles xs

unfoldable pub sort_parents : List NodeRef → List Bytes → List NodeRef × List Bytes
sort_parents parents parent_roles =
    let indexed = sort_stable (pair_roles parents parent_roles) in (refs indexed, roles indexed)

module _ (sha256 : Bytes → NodeRef) where
  unfoldable pub derive_node_hash : Bytes → Bytes → Bytes → Bytes → List NodeRef → NodeRef
  derive_node_hash session phase role payload sorted =
      sha256 (preimage session phase role (sha256 payload) sorted)

  unfoldable pub new_dag_node :
      ℕ
      → Bytes
      → Bytes
      → Bytes
      → Bytes
      → List NodeRef
      → List Bytes
      → Bytes
      → Bytes
      → Bytes
      → DagNode
  new_dag_node now session phase role payload parents parent_roles producer signature algorithm =
      let (sorted, sorted_roles) = sort_parents parents parent_roles in
      record {
        hash = derive_node_hash session phase role payload sorted;
        session_id = session;
        phase_id = phase;
        role = role;
        parents = sorted;
        parent_roles = sorted_roles;
        payload_hash = sha256 payload;
        created_at = now;
        producer = producer;
        signature = signature;
        algorithm = algorithm;
      }
