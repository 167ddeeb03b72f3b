-- ===== src/Lineage/Integrity.antt =====
-- What Commit and Verify of pkg/ares/lineage guarantee together.
use ares_energy_demo.Prelude.{
  ℕ, ◌≡◌, ◌≢◌, refl, sym, ◌∙◌, ap, subst, true, false, List, [], ◌∷◌, none, some, arith, lookup,
  ◌↔◌, Option-cases, inl, inr,
}
use ares_energy_demo.Auction.State.{Bytes}
use ares_energy_demo.Runner.Types.{name_eq, name_beq_iff, is_none}
use ares_energy_demo.Lineage.Node.{
  NodeRef, DagNode, signing_message, sort_parents, derive_node_hash, new_dag_node,
}
use ares_energy_demo.Lineage.Sort.{sort_parents_idempotent}
use ares_energy_demo.Lineage.Verify.{
  Signer, committed, signed_node, commit, verify_with, verify_by, verify, parent_hashes,
  parent_role_names,
}

module _ (sha256 : Bytes → NodeRef) where
  -- The node is what the verifier is asked to accept.
  abbrev pub Genuine : DagNode → Bytes → Signer → Type 0
  Genuine node payload v =
      (sha256 payload ≡ node.payload_hash)
      × (derive_node_hash sha256 node.session_id node.phase_id node.role payload node.parents
          ≡ node.hash)
      × (node.producer ≢ [])
      × (v.verify_signature node.producer
            (signing_message node.hash node.session_id node.phase_id node.role) node.signature
          ≡ true)

  is_none-false : (b : Bytes) → (is_none b ≡ false) ↔ (b ≢ [])
  is_none-false [] = ground arith
  is_none-false (x ∷ xs) = ground arith

  verify_with_iff :
      (node : DagNode) (payload : Bytes) (v : Signer)
      → (verify_with sha256 node payload v ≡ none) ↔ Genuine node payload v
  verify_with_iff node payload v = ground (
    arith,
    name_beq_iff (sha256 payload) node.payload_hash,
    name_beq_iff
        (derive_node_hash sha256 node.session_id node.phase_id node.role payload node.parents)
        node.hash,
    is_none-false node.producer,
  )

  -- Verify accepts a node exactly if a verifier is known for its algorithm, the payload has its
  -- payload hash, its fields have its hash, its producer is not empty and the signature over its
  -- hash, session, phase and role is valid for the producer.
  pub verify-accepts_iff :
      (node : DagNode) (payload : Bytes) (verifiers : List (Bytes × Signer))
      → (verify sha256 node payload verifiers ≡ none)
        ↔ ((v : Signer) × (lookup node.algorithm verifiers ≡ some v) × Genuine node payload v)
  unfolding verify
  verify-accepts_iff node payload verifiers = (
    (λ h. elim (Option-cases (lookup node.algorithm verifiers)) [
      | inl e ↦ absurd (ground (arith, sym (ap (verify_by sha256 node payload) e) ∙ h))
      | inr (v, e) ↦ (
        v,
        e,
        (verify_with_iff node payload v).0 (sym (ap (verify_by sha256 node payload) e) ∙ h),
      )
    ]),
    λ (v, k, g). ap (verify_by sha256 node payload) k ∙ (verify_with_iff node payload v).1 g,
  )

  -- A node that Commit returned is accepted by Verify for the same payload, where the verifier for the
  -- signer's algorithm accepts what the signer signs and the signer's public key is not empty.
  pub commit-verify :
      (now : ℕ) (session phase role payload : Bytes) (parents : List DagNode) (signer v : Signer)
      (node : DagNode) (verifiers : List (Bytes × Signer))
      → commit sha256 now session phase role payload parents (some signer) ≡ committed node
      → signer.public_key ≢ []
      → lookup signer.algorithm_name verifiers ≡ some v
      → ((m sig : Bytes)
          → signer.sign m ≡ some sig
          → v.verify_signature signer.public_key m sig ≡ true)
      → verify sha256 node payload verifiers ≡ none
  unfolding commit new_dag_node
  commit-verify now session phase role payload parents signer v node verifiers c key known honest =
      let given = parent_hashes parents in
      let given_roles = parent_role_names parents in
      let sorted = sort_parents given given_roles in
      let again = sort_parents_idempotent given given_roles in
      let hash = derive_node_hash sha256 session phase role payload sorted.0 in
      let message = signing_message hash session phase role in
      elim (Option-cases (signer.sign message)) [
        | inl e ↦ absurd (
            ground (
              arith,
              sym (ap (signed_node sha256 now session phase role payload sorted signer) e) ∙ c,
            ))
        | inr (sig, e) ↦
            let made =
              sym (ap (signed_node sha256 now session phase role payload sorted signer) e) ∙ c in
            let node' =
              new_dag_node sha256 now session phase role payload sorted.0 sorted.1 signer.public_key
                sig signer.algorithm_name in
            let same_hash =
              ap (λ t. derive_node_hash sha256 session phase role payload t.0) again in
            subst (λ n. verify sha256 n payload verifiers ≡ none) {x = node'} {y = node}
              (ground (arith, made))
              ((verify-accepts_iff node' payload verifiers).1 (
                v,
                known,
                (
                  refl,
                  refl,
                  key,
                  subst
                      (λ h.
                        v.verify_signature signer.public_key (signing_message h session phase role)
                          sig
                        ≡ true)
                      (sym same_hash) (honest message sig e),
                ),
              ))
      ]
