-- ===== src/Dispatch/Guard.antt =====
-- Which frames HandleLineageMessage lets through (pkg/ares/phase/runner_lineage.go), and that a runner
-- of ComposeWith (compose_with.go) lets its own through.
use ares_energy_demo.Prelude.{
  ℕ, ◌≡◌, ◌≢◌, refl, sym, ◌∙◌, ap, Bool, true, false, ◌&&◌, List, [], ◌∷◌, ◌++◌, Option, none, some,
  if◌then◌else◌, lookup, lookup-insert, All, arith, Bool-cases, Option-cases, subst, inl, inr, ◌⊎◌,
}
use ares_energy_demo.Auction.State.{Bytes}
use ares_energy_demo.Runner.Types.{Name, name_eq, name_beq_iff, Phase, Comparison, Result, ok, err}
use ares_energy_demo.Runner.Compose.{Built, compose}
use ares_energy_demo.Runner.Sessions.{Outcome}
use ares_energy_demo.Lineage.Node.{NodeRef, DagNode}
use ares_energy_demo.Lineage.Verify.{Signer, MismatchError, committed, commit, verify}
use ares_energy_demo.Lineage.Integrity.{commit-verify}
use ares_energy_demo.Lineage.Store.{InMemoryStore, append, append_unless, get}
use ares_energy_demo.Dispatch.Outputs.{Reads, kept}
use ares_energy_demo.Dispatch.Sessions.{Shared}
use ares_energy_demo.Dispatch.Messages.{
  LineageRunner, LineageOutcome, passed, missing_parent, fire_failure_hook, failure,
  mismatch_confirmed, handle_plain_message, checked_message, handle_lineage_message, as_passed,
}
use ares_energy_demo.Dispatch.Composing.{
  RunnerOpts, ComposedWith, composed, not_built, with_own, attach_lineage, compose_signed,
  compose_with, needs_peers, no_verifiers,
}
use ares_energy_demo.Lineage.Resolve.{insert-found}
use ares_energy_demo.Dispatch.Closed.{Stored}
use ares_energy_demo.Dispatch.Upkeep.{missing_parent-Stored}

Stored-missing_parent :
    (s : InMemoryStore) (ps : List NodeRef) → All (Stored s) ps → missing_parent s ps ≡ none
Stored-missing_parent s [] a = refl
Stored-missing_parent s (p ∷ ps) ((n, e), a) = ground (arith, e, Stored-missing_parent s ps a)

either {ℓ} :
    {A : Type ℓ} (f h : Bool → A) → f true ≡ h true → f false ≡ h false → (b : Bool) → f b ≡ h b
either f h t e true = t
either f h t e false = e

-- The store with the node: under its hash, if nothing was there; else as it was, with the node
-- that was there.
abbrev pub Stores : InMemoryStore → DagNode → InMemoryStore → Type 0
Stores s node s' =
    ((get s node.hash ≡ none) × (get s' node.hash ≡ some node))
    ⊎ ((n : DagNode) × (get s node.hash ≡ some n) × (s' ≡ s))

append-Stores : (s : InMemoryStore) (node : DagNode) → Stores s node (kept s (append s node))
unfolding get append
append-Stores s node = elim (Option-cases (lookup node.hash s.by_hash)) [
  | inl free ↦ inl (
    free,
    subst (λ o. lookup node.hash (kept s (append_unless o s node)).by_hash ≡ some node) (sym free)
        (insert-found node.hash node s.by_hash),
  )
  | inr (n, e) ↦ inr (n, e, ap (λ o. kept s (append_unless o s node)) e)
]

module _ {C V : Type 0} (sha256 : Bytes → NodeRef) (now : ℕ) (reads : Reads C) where
  -- The runner accepts a node for a payload.
  abbrev pub Accepts : LineageRunner C V → DagNode → Bytes → Type 0
  Accepts r node payload =
      (verify sha256 node payload r.verifiers ≡ none) × All (Stored r.store) node.parents

  -- The runner with a node offered to its store.
  abbrev pub storing : LineageRunner C V → DagNode → LineageRunner C V
  storing r node = record r { store = kept r.store (append r.store node) }

  -- The runner with one more event, if it has a hook: the failure is reported as confirmed, at the
  -- node's phase and role, and the node's producer answers for it.
  abbrev pub blaming : LineageRunner C V → Name → DagNode → LineageRunner C V
  blaming r id node = record r {
    events =
        (if r.has_hook
          then r.events
            ++ (record {
              kind = mismatch_confirmed;
              session_id = id;
              phase_id = node.phase_id;
              role = node.role;
              attributee = node.producer;
              dag_nodes = node ∷ [];
            }
                ∷ [])
          else r.events);
  }

  abbrev pub Guarded :
      LineageRunner C V
      → Name
      → Name
      → Name
      → Bytes
      → DagNode
      → LineageRunner C V × LineageOutcome
      → Type 0
  Guarded r id type from payload node result =
      (Accepts r node payload
        × Stores r.store node (storing r node).store
        × (result
            ≡ as_passed
                (handle_plain_message sha256 now reads (storing r node) id type from payload)))
      ⊎ (¬ (Accepts r node payload)
          × (result.0 ≡ blaming r id node)
          × ((o : Outcome Bool) → result.1 ≢ passed o))

  fire_lem :
      (r : LineageRunner C V) (id : Name) (node : DagNode)
      → fire_failure_hook r (failure mismatch_confirmed id node) ≡ blaming r id node
  unfolding fire_failure_hook
  fire_lem r id node =
      let more = r.events ++ (failure mismatch_confirmed id node ∷ []) in
      let fired : Bool → LineageRunner C V = λ b. if b then record r { events = more } else r in
      let blamed : Bool → LineageRunner C V =
        λ b. record r { events = (if b then more else r.events) } in
      either fired blamed refl refl r.has_hook

  checked-Guarded :
      (r : LineageRunner C V) (id type from : Name) (payload : Bytes) (node : DagNode)
      (v : Option MismatchError) (m : Option NodeRef)
      → verify sha256 node payload r.verifiers ≡ v
      → missing_parent r.store node.parents ≡ m
      → Guarded r id type from payload node
          (checked_message sha256 now reads r id type from payload node v m)
  checked-Guarded r id type from payload node (some e) m h k = inr (
    (λ a. absurd (ground (arith, h, a.0))),
    fire_lem r id node,
    λ o z. absurd (ground (arith, z)),
  )
  checked-Guarded r id type from payload node none (some p) h k = inr (
    (λ a. absurd (ground (arith, k, Stored-missing_parent r.store node.parents a.1))),
    fire_lem r id node,
    λ o z. absurd (ground (arith, z)),
  )
  checked-Guarded r id type from payload node none none h k =
      inl ((h, missing_parent-Stored r.store node.parents k), append-Stores r.store node, refl)

  -- A frame with a node that Verify accepts for its payload and whose parents are stored goes to
  -- HandleMessage. The node is then in the store, if there was none of its hash; else the store is as
  -- it was, with the node that was there. Any other frame with a node leaves sessions and store alone
  -- and its call fails; if the runner has a failure hook, the hook gets one event, of a confirmed
  -- mismatch, with the frame's session, the node's phase and role, the node's producer as the one who
  -- answers for it, and the node; without a hook nothing changes.
  pub handle_lineage_message-Guarded :
      (r : LineageRunner C V) (id type from : Name) (payload : Bytes) (node : DagNode)
      → Guarded r id type from payload node
          (handle_lineage_message sha256 now reads r id type from payload (some node))
  unfolding handle_lineage_message
  handle_lineage_message-Guarded r id type from payload node =
      checked-Guarded r id type from payload node (verify sha256 node payload r.verifiers)
        (missing_parent r.store node.parents) refl refl

own_verifier :
    (vs : List (Bytes × Signer)) (signer : Signer) (o : Option Signer)
    → lookup signer.algorithm_name vs ≡ o
    → (v : Signer) × (lookup signer.algorithm_name (with_own vs signer o) ≡ some v)
own_verifier vs signer none e = (
  signer,
  ground (
    arith,
    lookup-insert signer.algorithm_name signer.algorithm_name signer vs,
    name_beq_iff signer.algorithm_name signer.algorithm_name,
  ),
)
own_verifier vs signer (some v) e = (v, e)

module _ {C V : Type 0} (cmp : Comparison V) (ps : List (Phase (Shared C) V)) (o : RunnerOpts)
    (signer : Signer) (r : LineageRunner C V) where
  verifiers_of : ComposedWith C V → List (Bytes × Signer)
  verifiers_of (composed q) = q.verifiers
  verifiers_of (not_built e) = []

  attached_lem :
      (b : Result (Built (Shared C) V))
      → attach_lineage ps o signer b ≡ composed r
      → (r.verifiers
          ≡ with_own o.peer_verifiers signer (lookup signer.algorithm_name o.peer_verifiers))
  unfolding verifiers_of
  attached_lem (err e) h = absurd (ground (arith, h))
  attached_lem (ok b) h = ap verifiers_of (sym h)

  signed_lem :
      compose_signed cmp ps o (some signer) ≡ composed r
      → (r.verifiers
          ≡ with_own o.peer_verifiers signer (lookup signer.algorithm_name o.peer_verifiers))
  signed_lem h = elim (Bool-cases (needs_peers ps && no_verifiers o.peer_verifiers)) [
    | inl e ↦ absurd (ground (arith, e, h))
    | inr e ↦ attached_lem (compose cmp ps) (ground (arith, e, h))
  ]

  -- A runner that ComposeWith built verifies what its own signer commits, where the verifier that it
  -- has for the signer's algorithm accepts what the signer signs and the signer's public key is not
  -- empty.
  pub compose_with-verify :
      (sha256 : Bytes → NodeRef) (now : ℕ) (session phase role payload : Bytes)
      (parents : List DagNode) (node : DagNode)
      → o.signer ≡ some signer
      → compose_with cmp ps o ≡ composed r
      → signer.public_key ≢ []
      → ((v : Signer) (m sig : Bytes)
          → lookup signer.algorithm_name r.verifiers ≡ some v
          → signer.sign m ≡ some sig
          → v.verify_signature signer.public_key m sig ≡ true)
      → commit sha256 now session phase role payload parents (some signer) ≡ committed node
      → verify sha256 node payload r.verifiers ≡ none
  unfolding compose_with
  compose_with-verify sha256 now session phase role payload parents node has h key honest c =
      let own =
        own_verifier o.peer_verifiers signer (lookup signer.algorithm_name o.peer_verifiers) refl in
      let attached = signed_lem (ap (compose_signed cmp ps o) (sym has) ∙ h) in
      let known = ap (lookup signer.algorithm_name) attached ∙ own.1 in
      commit-verify sha256 now session phase role payload parents signer own.0 node r.verifiers c
        key known (λ m sig e. honest own.0 m sig known e)
