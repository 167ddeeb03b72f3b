-- ===== src/Dispatch/Calls.antt =====
-- The calls on a runner with lineage (pkg/ares/phase/runner.go, runner_lineage.go) in their order.
use ares_energy_demo.Prelude.{ℕ, List, [], ◌∷◌, Option, delete}
use ares_energy_demo.Auction.State.{Bytes}
use ares_energy_demo.Runner.Types.{Name, name_eq}
use ares_energy_demo.Lineage.Node.{NodeRef, DagNode}
use ares_energy_demo.Dispatch.Outputs.{Reads}
use ares_energy_demo.Dispatch.Messages.{
  LineageRunner, report_false_lineage_claim, handle_plain_message, advance_lineage_session,
  handle_lineage_message, begin_lineage_session,
}

-- BeginSession, HandleLineageMessage, HandleMessage, AdvanceToState, EndSession and
-- ReportFalseLineageClaim.
pub data LineageCall : Type 0 where
  begin : Name → Name → LineageCall
  frame : Name → Name → Name → Bytes → Option DagNode → LineageCall
  message : Name → Name → Name → Bytes → LineageCall
  advance_to : Name → Name → LineageCall
  end : Name → LineageCall
  false_claim : Name → DagNode → LineageCall

module _ {C V : Type 0} (sha256 : Bytes → NodeRef) (reads : Reads C)
    (new_context : Name → Name → C) where
  -- A call at its time. EndSession takes the session out of the runner and leaves the store as it is:
  -- the runner never calls the store's Clear.
  unfoldable pub perform_call : LineageRunner C V → ℕ × LineageCall → LineageRunner C V
  unfolding begin_lineage_session handle_lineage_message handle_plain_message
      advance_lineage_session report_false_lineage_claim
  perform_call r (now, begin id cohort) = (begin_lineage_session new_context r id cohort).0
  perform_call r (now, frame id type from payload node) =
      (handle_lineage_message sha256 now reads r id type from payload node).0
  perform_call r (now, message id type from payload) =
      (handle_plain_message sha256 now reads r id type from payload).0
  perform_call r (now, advance_to id target) =
      (advance_lineage_session sha256 now reads r id target).0
  perform_call r (now, end id) = record r { sessions = delete id r.sessions }
  perform_call r (now, false_claim id claim) = report_false_lineage_claim r id claim

  abbrev pub perform_calls : LineageRunner C V → List (ℕ × LineageCall) → LineageRunner C V
  perform_calls r [] = r
  perform_calls r (c ∷ cs) = perform_calls (perform_call r c) cs
