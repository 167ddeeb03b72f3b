-- ===== src/Tests/Dispatches.antt =====
-- A runner with lineage at concrete inputs (pkg/ares/phase): a phase that waits for one message and
-- has one output.
use ares_energy_demo.Prelude.{
  ℕ, suc, Eq, ◌≢◌, sym, ap, ◌∙◌, subst, Bool-cases, inl, inr, ◌≡◌, refl, true, false, List, [], ◌∷◌,
  none, some, lookup, insert, contains, arith,
}
use ares_energy_demo.Auction.State.{Bytes}
use ares_energy_demo.Runner.Types.{Name, name_beq, name_eq, name_beq_iff, Comparison, Phase}
use ares_energy_demo.Runner.Compose.{
  validate_requires, Built, add_provided, add_internals, connect_phase, add_inline, add_phase,
  add_phases, unbuilt, compose,
}
use ares_energy_demo.Lineage.Node.{NodeRef, DagNode}
use ares_energy_demo.Lineage.Verify.{Signer, Committed, commit, verify, committed, uncommitted}
use ares_energy_demo.Lineage.Store.{new_in_memory_store}
use ares_energy_demo.Dispatch.Outputs.{Reads}
use ares_energy_demo.Dispatch.Sessions.{Shared}
use ares_energy_demo.Dispatch.Messages.{LineageRunner, handle_lineage_message}
use ares_energy_demo.Dispatch.Composing.{
  RunnerOpts, ComposedWith, needs_peers, compose_with, composed, not_built,
}
use ares_energy_demo.Dispatch.Calls.{perform_calls, LineageCall, begin, frame}
use ares_energy_demo.Dispatch.Upkeep.{perform_calls-Closed, ClosedRunner}
use ares_energy_demo.Dispatch.Guard.{handle_lineage_message-Guarded, Guarded, compose_with-verify}
use ares_energy_demo.Dispatch.Kept.{KeepsClosed}

abbrev waiting : Phase (Shared ℕ) ℕ
waiting = record {
  name = 112 ∷ [];
  is_inline = true;
  entry_state = 65 ∷ [];
  exit_state = [];
  internal_states = [];
  consumed = (109 ∷ []) ∷ [];
  requires = [];
  provides =
      (
        111 ∷ [],
        record { type_name = []; is_required = true; constraints = []; no_lineage = false },
      )
      ∷ [];
  enter = λ c. (c, none);
  on_message = λ c type from payload. ((suc c.0, c.1), none);
  check_complete = λ c. true;
  exit = λ c. (c, none);
}

waiting-KeepsClosed : KeepsClosed waiting
waiting-KeepsClosed = record {
  on_enter = λ c h. h;
  on_exit = λ c h. h;
  on_receipt = λ c type from payload h. h;
}

abbrev equality : Comparison ℕ
equality = record { at_least = λ a b. some true; equal = λ a b. true }

-- The signature is the message itself.
abbrev signer : Signer
signer = record {
  public_key = 7 ∷ [];
  algorithm_name = 97 ∷ [];
  sign = λ m. some m;
  verify_signature = λ key m sig. name_beq m sig;
}

abbrev opts : RunnerOpts
opts = record {
  store = none;
  signer = some signer;
  peer_verifiers = (98 ∷ [], signer) ∷ [];
  failure_hook = true;
}

abbrev built_of : ComposedWith ℕ ℕ → Built (Shared ℕ) ℕ
built_of (composed r) = r.built
built_of (not_built e) = unbuilt

abbrev runner : LineageRunner ℕ ℕ
runner = record {
  built = built_of (compose_with equality (waiting ∷ []) opts);
  phase_count = 1;
  sessions = [];
  store = new_in_memory_store;
  signer = signer;
  verifiers = (98 ∷ [], signer) ∷ (97 ∷ [], signer) ∷ [];
  has_hook = true;
  events = [];
}

runner-composed : compose_with equality (waiting ∷ []) opts ≡ composed runner
unfolding compose_with compose lookup insert contains validate_requires add_inline add_internals
    connect_phase add_phase add_phases add_provided needs_peers
runner-composed = refl

abbrev digest : Bytes → NodeRef
digest b = b

abbrev reads : Reads ℕ
reads = record { session_of = λ c. 9 ∷ []; bytes_of = λ c key. some (5 ∷ []) }

abbrev blank : DagNode
blank = record {
  hash = [];
  session_id = [];
  phase_id = [];
  role = [];
  parents = [];
  parent_roles = [];
  payload_hash = [];
  created_at = 0;
  producer = [];
  signature = [];
  algorithm = [];
}

abbrev node_of : Committed → DagNode
node_of (committed n) = n
node_of (uncommitted e) = blank

abbrev signed : DagNode
signed = node_of (commit digest 0 (9 ∷ []) (112 ∷ []) (3 ∷ []) (5 ∷ []) [] (some signer))

signed-committed :
    commit digest 0 (9 ∷ []) (112 ∷ []) (3 ∷ []) (5 ∷ []) [] (some signer) ≡ committed signed
unfolding commit
signed-committed = refl

honest :
    (v : Signer) (m sig : Bytes)
    → lookup signer.algorithm_name runner.verifiers ≡ some v
    → signer.sign m ≡ some sig
    → v.verify_signature signer.public_key m sig ≡ true
unfolding lookup
honest v m sig known e =
    subst (λ w. w.verify_signature (7 ∷ []) m sig ≡ true) {x = signer} {y = v}
      (ground (arith, known)) ((name_beq_iff m sig).1 (ground (arith, e)))

compose_with-verify_example : verify digest signed (5 ∷ []) runner.verifiers ≡ none
compose_with-verify_example =
    compose_with-verify equality (waiting ∷ []) opts signer runner digest 0 (9 ∷ []) (112 ∷ [])
      (3 ∷ []) (5 ∷ []) [] signed refl runner-composed (λ e. ground (arith, e)) honest
      signed-committed

handle_lineage_message-Guarded_example :
    Guarded digest 0 reads runner (9 ∷ []) (109 ∷ []) (4 ∷ []) (5 ∷ []) blank (
      handle_lineage_message digest 0 reads runner
        (9 ∷ [])
        (109 ∷ [])
        (4 ∷ [])
        (5 ∷ [])
        (some blank))
handle_lineage_message-Guarded_example =
    handle_lineage_message-Guarded digest 0 reads runner (9 ∷ []) (109 ∷ []) (4 ∷ []) (5 ∷ []) blank

-- A session begins, takes the signed frame and commits its output; a forged frame follows.
abbrev calls : List (ℕ × LineageCall)
calls =
    (0, begin (9 ∷ []) [])
    ∷ (1, frame (9 ∷ []) (109 ∷ []) (4 ∷ []) (5 ∷ []) (some signed))
    ∷ (2, frame (9 ∷ []) (109 ∷ []) (4 ∷ []) (6 ∷ []) (some signed))
    ∷ []

nothing_found : {K A : Type 0} ⦃e : Eq K⦄ (k : K) (a : A) → lookup {V = A} k [] ≢ some a
unfolding lookup
nothing_found k a e = ground (arith, e)

entries : runner.built.by_entry ≡ (65 ∷ [], waiting) ∷ []
unfolding compose_with compose lookup insert contains validate_requires add_inline add_internals
    connect_phase add_phase add_phases add_provided needs_peers
entries = refl

entry-KeepsClosed :
    (state : Name) (p : Phase (Shared ℕ) ℕ)
    → lookup state ((65 ∷ [], waiting) ∷ []) ≡ some p
    → KeepsClosed p
unfolding lookup
entry-KeepsClosed state p e = elim (Bool-cases (name_beq (65 ∷ []) state)) [
  | inl k ↦ subst KeepsClosed {x = waiting} {y = p} (ground (arith, e, k)) waiting-KeepsClosed
  | inr k ↦ absurd (ground (arith, e, k))
]

runner-ClosedRunner : ClosedRunner digest reads (λ id cohort. 0) runner
runner-ClosedRunner = record {
  closed = λ h n e. absurd (nothing_found h n e);
  built_keeps = λ state p e. entry-KeepsClosed state p (ap (lookup state) (sym entries) ∙ e);
  sessions_keep = λ id t p e c. absurd (nothing_found id t e);
}

perform_calls-Closed_example :
    ClosedRunner digest reads
      (λ id cohort. 0)
      (perform_calls digest reads (λ id cohort. 0) runner calls)
perform_calls-Closed_example =
    perform_calls-Closed digest reads (λ id cohort. 0) runner calls runner-ClosedRunner
