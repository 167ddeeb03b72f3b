-- ===== src/Lineage/Verify.antt =====
-- Signing a node (commit.go) and checking it against its payload (verify.go), in pkg/ares/lineage.
use ares_energy_demo.Prelude.{
  ℕ, Bool, List, [], ◌∷◌, Option, none, some, if◌then◌else◌, ◌==◌, lookup, not, nat_eq,
}
use ares_energy_demo.Auction.State.{Bytes}
use ares_energy_demo.Runner.Types.{name_eq, is_none}
use ares_energy_demo.Lineage.Node.{
  NodeRef, DagNode, signing_message, sort_parents, derive_node_hash, new_dag_node,
}

-- `sign.Signer`: `sign` gives `none` where it fails, `verify` tests a public key, a message and a
-- signature.
pub record Signer : Type 0 where
  pub public_key : Bytes
  pub algorithm_name : Bytes
  pub sign : Bytes → Option Bytes
  pub verify_signature : Bytes → Bytes → Bytes → Bool

pub data CommitError : Type 0 where
  nil_signer sign_failed : CommitError

pub data Committed : Type 0 where
  committed : DagNode → Committed
  uncommitted : CommitError → Committed

-- The Field of a MismatchError and its NodeHash; the bytes for the log are left out.
pub data Field : Type 0 where
  algorithm_field payload_hash_field signature_field : Field

pub record MismatchError : Type 0 where
  pub field : Field
  pub node_hash : NodeRef

abbrev pub parent_hashes : List DagNode → List NodeRef
parent_hashes [] = []
parent_hashes (p ∷ ps) = p.hash ∷ parent_hashes ps

abbrev pub parent_role_names : List DagNode → List Bytes
parent_role_names [] = []
parent_role_names (p ∷ ps) = p.role ∷ parent_role_names ps

abbrev pub mismatch : Field → DagNode → Option MismatchError
mismatch f node = some (record { field = f; node_hash = node.hash })

module _ (sha256 : Bytes → NodeRef) where
  -- What Commit returns once the signer has answered.
  abbrev pub signed_node :
      ℕ
      → Bytes
      → Bytes
      → Bytes
      → Bytes
      → List NodeRef × List Bytes
      → Signer
      → Option Bytes
      → Committed
  signed_node now session phase role payload _ signer none = uncommitted sign_failed
  signed_node now session phase role payload (sorted, sorted_roles) signer (some signature) =
      committed (
        new_dag_node sha256 now session phase role payload sorted sorted_roles signer.public_key
          signature signer.algorithm_name)

  unfoldable pub commit :
      ℕ → Bytes → Bytes → Bytes → Bytes → List DagNode → Option Signer → Committed
  commit now session phase role payload parents none = uncommitted nil_signer
  commit now session phase role payload parents (some signer) =
      let sorted = sort_parents (parent_hashes parents) (parent_role_names parents) in
      let hash = derive_node_hash sha256 session phase role payload sorted.0 in
      signed_node now session phase role payload sorted signer
        (signer.sign (signing_message hash session phase role))

  -- The checks of Verify after the verifier was found.
  abbrev pub verify_with : DagNode → Bytes → Signer → Option MismatchError
  verify_with node payload v =
      if not (sha256 payload == node.payload_hash)
      then mismatch payload_hash_field node
      else if not (
          derive_node_hash sha256 node.session_id node.phase_id node.role payload node.parents
          == node.hash)
      then mismatch payload_hash_field node
      else if is_none node.producer
      then mismatch signature_field node
      else if v.verify_signature node.producer
          (signing_message node.hash node.session_id node.phase_id node.role) node.signature
      then none
      else mismatch signature_field node

  abbrev pub verify_by : DagNode → Bytes → Option Signer → Option MismatchError
  verify_by node payload none = mismatch algorithm_field node
  verify_by node payload (some v) = verify_with node payload v

  -- `none` accepts the node.
  unfoldable pub verify : DagNode → Bytes → List (Bytes × Signer) → Option MismatchError
  verify node payload verifiers = verify_by node payload (lookup node.algorithm verifiers)
