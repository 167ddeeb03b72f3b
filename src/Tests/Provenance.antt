-- ===== src/Tests/Provenance.antt =====
-- Signing, verifying and storing nodes at concrete inputs (pkg/ares/lineage).
use ares_energy_demo.Prelude.{
  ℕ, ◌≡◌, ◌≢◌, refl, List, [], ◌∷◌, ◌++◌, none, some, arith, lookup, ◌↔◌, length, suc,
}
use ares_energy_demo.Auction.State.{Bytes}
use ares_energy_demo.Runner.Types.{name_eq, name_beq, name_beq_iff}
use ares_energy_demo.Lineage.Node.{NodeRef, DagNode, sort_parents, new_dag_node}
use ares_energy_demo.Lineage.Preimage.{Sized, preimage_injective}
use ares_energy_demo.Lineage.Verify.{Signer, Committed, committed, uncommitted, commit, verify}
use ares_energy_demo.Lineage.Integrity.{Genuine, verify-accepts_iff, commit-verify}
use ares_energy_demo.Lineage.Evidence.{SizedNode, same_hash_lem}
use ares_energy_demo.Lineage.Store.{
  InMemoryStore, new_in_memory_store, AppendResult, appended, node_exists, append, get,
  walk_session,
}
use ares_energy_demo.Lineage.Resolve.{Indexed}
use ares_energy_demo.Lineage.Walks.{append-walk}

-- A stand-in for SHA-256 and for a signature scheme.
abbrev digest : Bytes → NodeRef
digest b = length b ∷ b

abbrev signer : Signer
signer = record {
  public_key = 7 ∷ [];
  algorithm_name = 101 ∷ [];
  sign = λ m. some m;
  verify_signature = λ pk m sig. name_beq m sig;
}

abbrev verifiers : List (Bytes × Signer)
verifiers = (101 ∷ [], signer) ∷ []

abbrev parent_of : NodeRef → DagNode
parent_of h = record {
  hash = h;
  session_id = 1 ∷ [];
  phase_id = 2 ∷ [];
  role = h;
  parents = [];
  parent_roles = [];
  payload_hash = [];
  created_at = 0;
  producer = [];
  signature = [];
  algorithm = [];
}

abbrev node_of : Committed → DagNode
node_of (committed n) = n
node_of (uncommitted e) = parent_of []

abbrev given : List DagNode
given = parent_of (9 ∷ []) ∷ parent_of (4 ∷ []) ∷ []

abbrev signed : DagNode
signed = node_of (commit digest 0 (1 ∷ []) (2 ∷ []) (3 ∷ []) (5 ∷ []) given (some signer))

signed-committed :
    commit digest 0 (1 ∷ []) (2 ∷ []) (3 ∷ []) (5 ∷ []) given (some signer) ≡ committed signed
unfolding commit
signed-committed = refl

signer-known : lookup signer.algorithm_name verifiers ≡ some signer
unfolding lookup
signer-known = refl

commit-verify_example : verify digest signed (5 ∷ []) verifiers ≡ none
commit-verify_example =
    commit-verify digest 0 (1 ∷ []) (2 ∷ []) (3 ∷ []) (5 ∷ []) given signer signer signed verifiers
      signed-committed (λ e. ground (arith, e)) signer-known
      (λ m sig e. ground (arith, e, name_beq_iff m sig))

verify-accepts_iff_example : (verify digest signed (5 ∷ []) verifiers ≡ none) ↔ (
    (v : Signer) × (lookup signed.algorithm verifiers ≡ some v) × Genuine digest signed (5 ∷ []) v)
verify-accepts_iff_example = verify-accepts_iff digest signed (5 ∷ []) verifiers

abbrev zeros : ℕ → Bytes
zeros ℕ.zero = []
zeros (suc n) = 0 ∷ zeros n

abbrev one : Bytes
one = 1 ∷ []

abbrev two : Bytes
two = 2 ∷ []

abbrev three : Bytes
three = 3 ∷ []

abbrev ancestors : List NodeRef
ancestors = zeros 32 ∷ []

small : Sized one two three (zeros 32) ancestors
small = record {
  session_fits = omega arith;
  phase_fits = omega arith;
  role_fits = omega arith;
  parents_fit = omega arith;
  payload_ref = refl;
  parent_refs = (refl, tt);
}

preimage_injective_example :
    (one ≡ one) × (two ≡ two) × (three ≡ three) × (zeros 32 ≡ zeros 32) × (ancestors ≡ ancestors)
preimage_injective_example =
    preimage_injective one one two two three three (zeros 32) (zeros 32) ancestors ancestors small
      small refl

abbrev store_of : AppendResult → InMemoryStore
store_of (appended s) = s
store_of node_exists = new_in_memory_store

abbrev stored : InMemoryStore
stored = store_of (append new_in_memory_store (parent_of (9 ∷ [])))

new-Indexed : Indexed new_in_memory_store
unfolding lookup
new-Indexed session = tt

stored-appended : append new_in_memory_store (parent_of (9 ∷ [])) ≡ appended stored
unfolding append lookup
stored-appended = refl

append-walk_example :
    Indexed stored
    × (get stored (9 ∷ []) ≡ some (parent_of (9 ∷ [])))
    × (walk_session stored (1 ∷ [])
        ≡ walk_session new_in_memory_store (1 ∷ []) ++ (parent_of (9 ∷ []) ∷ []))
    × ((session : Bytes)
        → (1 ∷ []) ≢ session
        → walk_session stored session ≡ walk_session new_in_memory_store session)
append-walk_example =
    append-walk new_in_memory_store stored (parent_of (9 ∷ [])) new-Indexed stored-appended

abbrev five : Bytes
five = 5 ∷ []

-- The first 32 bytes, filled up with zeros.
abbrev fill : ℕ → Bytes → Bytes
fill ℕ.zero b = []
fill (suc n) [] = 0 ∷ fill n []
fill (suc n) (x ∷ b) = x ∷ fill n b

abbrev origin : List DagNode
origin = parent_of (fill 32 (9 ∷ [])) ∷ []

abbrev attested : DagNode
attested = node_of (commit (fill 32) 0 one two three (5 ∷ []) origin (some signer))

attested-committed :
    commit (fill 32) 0 one two three (5 ∷ []) origin (some signer) ≡ committed attested
unfolding commit
attested-committed = refl

attested-verify : verify (fill 32) attested (5 ∷ []) verifiers ≡ none
attested-verify =
    commit-verify (fill 32) 0 one two three (5 ∷ []) origin signer signer attested verifiers
      attested-committed (λ e. ground (arith, e)) signer-known
      (λ m sig e. ground (arith, e, name_beq_iff m sig))

attested-SizedNode : SizedNode attested
unfolding commit new_dag_node sort_parents
attested-SizedNode = record {
  session_fits = omega arith;
  phase_fits = omega arith;
  role_fits = omega arith;
  parents_fit = omega arith;
  payload_ref = refl;
  parent_refs = (refl, tt);
}

same_hash_lem_example :
    (attested.session_id ≡ attested.session_id)
    × (attested.phase_id ≡ attested.phase_id)
    × (attested.role ≡ attested.role)
    × (attested.parents ≡ attested.parents)
    × (five ≡ five)
same_hash_lem_example =
    same_hash_lem (fill 32) attested attested (5 ∷ []) (5 ∷ []) verifiers attested-SizedNode
      attested-SizedNode (λ e. refl) (λ e. refl) attested-verify attested-verify refl
