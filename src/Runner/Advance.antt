-- ===== src/Runner/Advance.antt =====
-- AdvanceToState of pkg/ares/phase/runner.go, and the calls on a runner in their order.
use ares_energy_demo.Prelude.{
  ℕ, zero, suc, ◌+◌, Bool, true, false, List, [], ◌∷◌, Option, none, some, if◌then◌else◌, ◌==◌,
  lookup, contains,
}
use ares_energy_demo.Auction.State.{Bytes}
use ares_energy_demo.Runner.Types.{Name, name_eq, is_none, Phase, Fault}
use ares_energy_demo.Runner.Compose.{Built}
use ares_energy_demo.Runner.Sessions.{
  Outcome, done, failed, permanent, framework_bug, hook, Tracker, Runner, move_to, put_session,
  handle_message, begin_session, end_session,
}

-- A call on the runner: BeginSession, HandleMessage, AdvanceToState, EndSession.
pub data Call : Type 0 where
  begin : Name → Name → Call
  message : Name → Name → Name → Bytes → Call
  advance_to : Name → Name → Call
  end : Name → Call

module _ {C V : Type 0} where
  unfoldable pub after_catch_up :
      Tracker C V
      → C × Option Fault
      → (Tracker C V → Tracker C V × Outcome (Unit {0}))
      → Tracker C V × Outcome (Unit {0})
  after_catch_up t (c, some e) again = (record t { ctx = c }, failed (hook e))
  after_catch_up t (c, none) again = again (record t { ctx = c; entered = true })

  -- A round of the walk after the phase's Exit.
  unfoldable pub after_leave :
      Built C V
      → Phase C V
      → Tracker C V
      → C × Option Fault
      → (Tracker C V → Tracker C V × Outcome (Unit {0}))
      → Tracker C V × Outcome (Unit {0})
  unfolding after_catch_up move_to
  after_leave b p t (c, some e) again = (record t { ctx = c }, failed (hook e))
  after_leave b p t (c, none) again =
      if is_none p.exit_state
      then (record t { ctx = c }, failed permanent)
      else elim (lookup p.exit_state b.by_entry) [
        | none ↦ (record t { ctx = c }, failed framework_bug)
        | some q ↦ after_catch_up (move_to t c p.exit_state q) (q.enter c) again
      ]

  -- The phase whose state the session is in takes one round, for each unit of fuel.
  unfoldable pub walk_to : Built C V → Name → ℕ → Tracker C V → Tracker C V × Outcome (Unit {0})
  unfolding after_leave
  walk_to b target zero t = (t, failed framework_bug)
  walk_to b target (suc hops) t = if t.state == target then (t, done tt) else elim t.current [
    | none ↦ (t, failed framework_bug)
    | some p ↦ after_leave b p t (p.exit t.ctx) (walk_to b target hops)
  ]

  unfoldable pub is_within : Option (Phase C V) → Name → Bool
  is_within none target = false
  is_within (some p) target = contains p.internal_states target

  unfoldable pub advance_tracker :
      Runner C V → Tracker C V → Name → Tracker C V × Outcome (Unit {0})
  unfolding walk_to is_within
  advance_tracker r t target =
      if t.state == target
      then (t, done tt)
      else (if is_within t.current target
          then (t, done tt)
          else walk_to r.built target (r.phase_count + 1) t)

  abbrev pub advance_in :
      Runner C V → Name → Name → Option (Tracker C V) → Runner C V × Outcome (Unit {0})
  advance_in r id target none = (r, failed permanent)
  advance_in r id target (some t) =
      let (t', o) = advance_tracker r t target in (put_session r id t', o)

  unfoldable pub advance_to_state : Runner C V → Name → Name → Runner C V × Outcome (Unit {0})
  advance_to_state r id target = advance_in r id target (lookup id r.sessions)

  unfoldable pub perform : Runner C V → Call → Runner C V
  unfolding begin_session handle_message advance_to_state end_session
  perform r (begin id cohort) = (begin_session r id cohort).0
  perform r (message id type from payload) = (handle_message r id type from payload).0
  perform r (advance_to id target) = (advance_to_state r id target).0
  perform r (end id) = end_session r id

  abbrev pub perform_all : Runner C V → List Call → Runner C V
  perform_all r [] = r
  perform_all r (c ∷ cs) = perform_all (perform r c) cs
