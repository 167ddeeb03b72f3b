-- ===== src/Lineage/Evidence.antt =====
-- What an accepted node is evidence of (pkg/ares/lineage/verify.go, node.go).
use ares_energy_demo.Prelude.{◌≡◌, sym, ◌∙◌, ap, List, none}
use ares_energy_demo.Auction.State.{Bytes}
use ares_energy_demo.Lineage.Node.{NodeRef, DagNode, preimage, derive_node_hash}
use ares_energy_demo.Lineage.Preimage.{Sized, preimage_injective}
use ares_energy_demo.Lineage.Verify.{Signer, verify}
use ares_energy_demo.Lineage.Integrity.{verify-accepts_iff}

-- The bytes that a node's hash is taken of.
abbrev pub committed_bytes : DagNode → Bytes
committed_bytes n = preimage n.session_id n.phase_id n.role n.payload_hash n.parents

abbrev pub SizedNode : DagNode → Type 0
SizedNode n = Sized n.session_id n.phase_id n.role n.payload_hash n.parents

module _ (sha256 : Bytes → NodeRef) where
  verify-hash :
      (n : DagNode) (payload : Bytes) (verifiers : List (Bytes × Signer))
      → verify sha256 n payload verifiers ≡ none
      → (sha256 payload ≡ n.payload_hash) × (sha256 (committed_bytes n) ≡ n.hash)
  unfolding derive_node_hash
  verify-hash n payload verifiers h =
      let (v, _, g) = (verify-accepts_iff sha256 n payload verifiers).0 h in
      (g.0, ap (λ t. sha256 (preimage n.session_id n.phase_id n.role t n.parents)) (sym g.0) ∙ g.1)

  -- Two nodes of one hash that Verify accepts, each for its payload, agree in session, phase, role
  -- and parents, and the payloads are the same, where the fields have the lengths that `Sized` allows
  -- and SHA-256 does not collide on what the two nodes commit to nor on the two payloads.
  pub same_hash_lem :
      (n k : DagNode) (payload payload' : Bytes) (verifiers : List (Bytes × Signer))
      → SizedNode n
      → SizedNode k
      → (sha256 (committed_bytes n) ≡ sha256 (committed_bytes k)
          → committed_bytes n ≡ committed_bytes k)
      → (sha256 payload ≡ sha256 payload' → payload ≡ payload')
      → verify sha256 n payload verifiers ≡ none
      → verify sha256 k payload' verifiers ≡ none
      → n.hash ≡ k.hash
      → (n.session_id ≡ k.session_id)
        × (n.phase_id ≡ k.phase_id)
        × (n.role ≡ k.role)
        × (n.parents ≡ k.parents)
        × (payload ≡ payload')
  same_hash_lem n k payload payload' verifiers sn sk apart apart' hn hk same =
      let (pn, dn) = verify-hash n payload verifiers hn in
      let (pk, dk) = verify-hash k payload' verifiers hk in
      let (s, p, r, h, ps) =
        preimage_injective n.session_id k.session_id n.phase_id k.phase_id n.role k.role
          n.payload_hash k.payload_hash n.parents k.parents sn sk (apart (dn ∙ same ∙ sym dk)) in
      (s, p, r, ps, apart' (pn ∙ h ∙ sym pk))
