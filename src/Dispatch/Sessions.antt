-- ===== src/Dispatch/Sessions.antt =====
-- The cascades of pkg/ares/phase/runner.go in a runner with lineage: after Exit the outputs are
-- committed. A context is paired with the store that it points to; its hooks may append to it.
use ares_energy_demo.Prelude.{
  ℕ, zero, suc, ◌+◌, Bool, false, not, Option, none, some, if◌then◌else◌, ◌==◌, contains,
}
use ares_energy_demo.Auction.State.{Bytes}
use ares_energy_demo.Runner.Types.{Name, name_eq, Phase, Fault}
use ares_energy_demo.Runner.Compose.{Built}
use ares_energy_demo.Runner.Sessions.{
  Outcome, done, failed, panicked, permanent, framework_bug, hook, Tracker, after_exit,
}
use ares_energy_demo.Runner.Advance.{after_leave, is_within}
use ares_energy_demo.Lineage.Node.{NodeRef}
use ares_energy_demo.Lineage.Verify.{Signer, CommitError}
use ares_energy_demo.Lineage.Store.{InMemoryStore}
use ares_energy_demo.Dispatch.Outputs.{Reads, commit_phase_outputs}

abbrev pub Shared : Type 0 → Type 0
Shared C = C × InMemoryStore

module _ {C V : Type 0} (sha256 : Bytes → NodeRef) (now : ℕ) (reads : Reads C)
    (signer : Signer) where
  -- Exit's result, and then the outputs: an error of the commit ends the call.
  abbrev pub commit_result :
      {A : Type 0}
      → Tracker (Shared C) V
      → C
      → InMemoryStore × Option CommitError
      → (Shared C × Option Fault → Tracker (Shared C) V × Outcome A)
      → Tracker (Shared C) V × Outcome A
  commit_result t c (s, some e) go_on = (record t { ctx = (c, s) }, failed framework_bug)
  commit_result t c (s, none) go_on = go_on ((c, s), none)

  unfoldable pub commit_after :
      {A : Type 0}
      → Phase (Shared C) V
      → Tracker (Shared C) V
      → Shared C × Option Fault
      → (Shared C × Option Fault → Tracker (Shared C) V × Outcome A)
      → Tracker (Shared C) V × Outcome A
  unfolding commit_phase_outputs
  commit_after p t (cs, some e) go_on = go_on (cs, some e)
  commit_after p t ((c, s), none) go_on =
      commit_result t c (commit_phase_outputs sha256 now reads (some signer) p c s) go_on

  -- One round of the cascade for each unit of fuel.
  unfoldable pub lineage_loop :
      Built (Shared C) V → ℕ → Tracker (Shared C) V → Tracker (Shared C) V × Outcome Bool
  unfolding commit_after after_exit
  lineage_loop b zero t = (t, failed framework_bug)
  lineage_loop b (suc hops) t = elim t.current [
    | none ↦ (t, panicked)
    | some p ↦ commit_after p t (p.exit t.ctx) (λ r. after_exit b p t r (lineage_loop b hops))
  ]

  unfoldable pub lineage_deliver :
      Built (Shared C) V
      → ℕ
      → Tracker (Shared C) V
      → Phase (Shared C) V
      → Shared C × Option Fault
      → Tracker (Shared C) V × Outcome Bool
  unfolding lineage_loop
  lineage_deliver b count t p (c, some e) = (record t { ctx = c }, failed (hook e))
  lineage_deliver b count t p (c, none) =
      let t' = record t { ctx = c } in
      let next = lineage_loop b (count + 1) t' in
      if not (p.check_complete c) then (t', done false) else next

  unfoldable pub lineage_message_to :
      Built (Shared C) V
      → ℕ
      → Tracker (Shared C) V
      → Name
      → Name
      → Bytes
      → Tracker (Shared C) V × Outcome Bool
  unfolding lineage_deliver
  lineage_message_to b count t type from payload = elim t.current [
    | none ↦ (t, panicked)
    | some p ↦
        if contains p.consumed type
        then lineage_deliver b count t p (p.on_message t.ctx type from payload)
        else (t, failed permanent)
  ]

  -- The walk of AdvanceToState.
  unfoldable pub lineage_walk :
      Built (Shared C) V
      → Name
      → ℕ
      → Tracker (Shared C) V
      → Tracker (Shared C) V × Outcome (Unit {0})
  unfolding commit_after after_leave
  lineage_walk b target zero t = (t, failed framework_bug)
  lineage_walk b target (suc hops) t = if t.state == target then (t, done tt) else elim t.current [
    | none ↦ (t, failed framework_bug)
    | some p ↦
        commit_after p t (p.exit t.ctx) (λ r. after_leave b p t r (lineage_walk b target hops))
  ]

  unfoldable pub lineage_advance :
      Built (Shared C) V
      → ℕ
      → Tracker (Shared C) V
      → Name
      → Tracker (Shared C) V × Outcome (Unit {0})
  unfolding lineage_walk is_within
  lineage_advance b count t target =
      if t.state == target
      then (t, done tt)
      else if is_within t.current target
      then (t, done tt)
      else lineage_walk b target (count + 1) t
