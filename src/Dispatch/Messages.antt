-- ===== src/Dispatch/Messages.antt =====
-- HandleLineageMessage, BuildMismatchClaim and ReportFalseLineageClaim (pkg/ares/phase/runner_lineage.go),
-- the failure events (hooks.go). The calls of the failure hook are listed: a panic in it is caught.
use ares_energy_demo.Prelude.{
  ℕ, Bool, true, List, [], ◌∷◌, ◌++◌, Option, none, some, if◌then◌else◌, lookup, insert, delete,
}
use ares_energy_demo.Auction.State.{Bytes}
use ares_energy_demo.Runner.Types.{Name, name_eq, is_none, Phase, Fault}
use ares_energy_demo.Runner.Compose.{Built}
use ares_energy_demo.Runner.Sessions.{
  Outcome, done, failed, permanent, framework_bug, hook, Tracker,
}
use ares_energy_demo.Lineage.Node.{NodeRef, DagNode}
use ares_energy_demo.Lineage.Verify.{Signer, MismatchError, Committed, commit, verify}
use ares_energy_demo.Lineage.Store.{InMemoryStore, append}
use ares_energy_demo.Dispatch.Outputs.{Reads, kept}
use ares_energy_demo.Dispatch.Sessions.{Shared, lineage_message_to, lineage_advance}

pub data FailureKind : Type 0 where
  mismatch_confirmed mismatch_false_claim : FailureKind

pub record LineageFailureEvent : Type 0 where
  pub kind : FailureKind
  pub session_id : Name
  pub phase_id : Bytes
  pub role : Bytes
  pub attributee : Bytes
  pub dag_nodes : List DagNode

-- A runner that ComposeWith built, with its store, and the events that its hook has got.
pub record LineageRunner (C V : Type 0) : Type 0 where
  pub built : Built (Shared C) V
  pub phase_count : ℕ
  pub sessions : List (Name × Tracker (Shared C) V)
  pub store : InMemoryStore
  pub signer : Signer
  pub verifiers : List (Bytes × Signer)
  pub has_hook : Bool
  pub events : List LineageFailureEvent

-- Why a frame does not reach HandleMessage: no node, a node that does not verify, or a parent that
-- is not in the store.
pub data LineageOutcome : Type 0 where
  passed : Outcome Bool → LineageOutcome
  no_node : LineageOutcome
  unverified : MismatchError → LineageOutcome
  unknown_parent : NodeRef → LineageOutcome

abbrev pub missing_parent : InMemoryStore → List NodeRef → Option NodeRef
missing_parent s [] = none
missing_parent s (p ∷ ps) = elim (lookup p s.by_hash) [
  | none ↦ some p
  | some _ ↦ missing_parent s ps
]

-- The event of a node and who answers for it.
abbrev pub failure : FailureKind → Name → DagNode → LineageFailureEvent
failure kind id node = record {
  kind = kind;
  session_id = id;
  phase_id = node.phase_id;
  role = node.role;
  attributee = node.producer;
  dag_nodes = node ∷ [];
}

module _ {C V : Type 0} where
  unfoldable pub fire_failure_hook : LineageRunner C V → LineageFailureEvent → LineageRunner C V
  fire_failure_hook r e = if r.has_hook then record r { events = r.events ++ (e ∷ []) } else r

  unfoldable pub report_false_lineage_claim : LineageRunner C V → Name → DagNode → LineageRunner C V
  unfolding fire_failure_hook
  report_false_lineage_claim r id claim =
      fire_failure_hook r (failure mismatch_false_claim id claim)

  -- The session's context points to the runner's store.
  abbrev pub seeing : InMemoryStore → Tracker (Shared C) V → Tracker (Shared C) V
  seeing s t = record t { ctx = (t.ctx.0, s) }

  abbrev pub put_back :
      {A : Type 0}
      → LineageRunner C V
      → Name
      → Tracker (Shared C) V × Outcome A
      → LineageRunner C V × Outcome A
  put_back r id (t, o) = (record r { sessions = insert id t r.sessions; store = t.ctx.1 }, o)

  abbrev pub as_passed : LineageRunner C V × Outcome Bool → LineageRunner C V × LineageOutcome
  as_passed (r, o) = (r, passed o)

  module _ (sha256 : Bytes → NodeRef) (now : ℕ) (reads : Reads C) where
    abbrev pub lineage_message_in :
        LineageRunner C V
        → Name
        → Name
        → Name
        → Bytes
        → Option (Tracker (Shared C) V)
        → LineageRunner C V × Outcome Bool
    lineage_message_in r id type from payload none = (r, failed permanent)
    lineage_message_in r id type from payload (some t) = put_back r id (
        lineage_message_to sha256 now reads r.signer r.built r.phase_count (seeing r.store t) type
          from payload)

    -- HandleMessage of a runner with lineage.
    unfoldable pub handle_plain_message :
        LineageRunner C V → Name → Name → Name → Bytes → LineageRunner C V × Outcome Bool
    unfolding lineage_message_to
    handle_plain_message r id type from payload =
        lineage_message_in r id type from payload (lookup id r.sessions)

    abbrev pub advance_session :
        LineageRunner C V
        → Name
        → Name
        → Option (Tracker (Shared C) V)
        → LineageRunner C V × Outcome (Unit {0})
    advance_session r id target none = (r, failed permanent)
    advance_session r id target (some t) =
        put_back r id (
          lineage_advance sha256 now reads r.signer r.built r.phase_count (seeing r.store t) target)

    unfoldable pub advance_lineage_session :
        LineageRunner C V → Name → Name → LineageRunner C V × Outcome (Unit {0})
    unfolding lineage_advance
    advance_lineage_session r id target = advance_session r id target (lookup id r.sessions)

    -- The checks on the node in their order, and then its storing and the dispatch.
    abbrev pub checked_message :
        LineageRunner C V
        → Name
        → Name
        → Name
        → Bytes
        → DagNode
        → Option MismatchError
        → Option NodeRef
        → LineageRunner C V × LineageOutcome
    checked_message r id type from payload node (some e) _ =
        (fire_failure_hook r (failure mismatch_confirmed id node), unverified e)
    checked_message r id type from payload node none (some p) =
        (fire_failure_hook r (failure mismatch_confirmed id node), unknown_parent p)
    checked_message r id type from payload node none none = as_passed (
        handle_plain_message (record r { store = kept r.store (append r.store node) }) id type from
          payload)

    unfoldable pub handle_lineage_message :
        LineageRunner C V
        → Name
        → Name
        → Name
        → Bytes
        → Option DagNode
        → LineageRunner C V × LineageOutcome
    unfolding fire_failure_hook handle_plain_message append verify
    handle_lineage_message r id type from payload none = (r, no_node)
    handle_lineage_message r id type from payload (some node) =
        checked_message r id type from payload node (verify sha256 node payload r.verifiers)
          (missing_parent r.store node.parents)

  abbrev pub entered_session :
      LineageRunner C V
      → Name
      → Phase (Shared C) V
      → Shared C × Option Fault
      → LineageRunner C V × Outcome C
  entered_session r id p ((c, s), some e) =
      (record r { sessions = delete id r.sessions; store = s }, failed (hook e))
  entered_session r id p ((c, s), none) =
      let t : Tracker (Shared C) V = record {
        ctx = (c, s);
        state = r.built.initial;
        current = some p;
        entered = true;
      } in
      (record r { sessions = insert id t r.sessions; store = s }, done c)

  -- BeginSession of a runner with lineage; `new_context` is NewSessionContext with the cohort's id.
  unfoldable pub begin_lineage_session :
      (Name → Name → C) → LineageRunner C V → Name → Name → LineageRunner C V × Outcome C
  begin_lineage_session new_context r id cohort =
      if is_none id then (r, failed permanent) else elim (lookup id r.sessions) [
        | some _ ↦ (r, failed permanent)
        | none ↦ elim (lookup r.built.initial r.built.by_entry) [
          | none ↦ (r, failed framework_bug)
          | some p ↦ entered_session r id p (p.enter (new_context id cohort, r.store))
        ]
      ]

  -- The claim's role is "mismatch-claim"; `text` is the error's.
  unfoldable pub build_mismatch_claim :
      (Bytes → NodeRef) → ℕ → LineageRunner C V → Name → Bytes → Bytes → Committed
  unfolding commit
  build_mismatch_claim sha256 now r id phase_id text =
      commit sha256 now id phase_id
        (109 ∷ 105 ∷ 115 ∷ 109 ∷ 97 ∷ 116 ∷ 99 ∷ 104 ∷ 45 ∷ 99 ∷ 108 ∷ 97 ∷ 105 ∷ 109 ∷ []) text []
        (some r.signer)
