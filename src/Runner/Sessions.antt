-- ===== src/Runner/Sessions.antt =====
-- The sessions of pkg/ares/phase/runner.go: BeginSession, HandleMessage, AdvanceToState and the loops
-- below them, for a runner built by Compose, whose lineage commit does nothing.
use ares_energy_demo.Prelude.{
  ℕ, zero, suc, ◌+◌, Bool, true, false, not, List, [], ◌∷◌, Option, none, some, if◌then◌else◌,
  lookup, insert, delete, contains,
}
use ares_energy_demo.Auction.State.{Bytes}
use ares_energy_demo.Runner.Types.{Name, name_eq, is_none, Phase, Fault}
use ares_energy_demo.Runner.Compose.{Built}

-- The classes of errors, and a phase's own error, which passes through.
pub data Err : Type 0 where
  permanent framework_bug : Err
  hook : Fault → Err

-- A call's outcome; `panicked` is the call of a method on a nil phase.
pub data Outcome (A : Type 0) : Type 0 where
  done : A → Outcome A
  failed : Err → Outcome A
  panicked : Outcome A

pub record Tracker (C V : Type 0) : Type 0 where
  pub ctx : C
  pub state : Name
  pub current : Option (Phase C V)
  pub entered : Bool

-- `phase_count` is len(r.phases), and `new_context` is NewSessionContext with the cohort's id.
pub record Runner (C V : Type 0) : Type 0 where
  pub built : Built C V
  pub phase_count : ℕ
  pub new_context : Name → Name → C
  pub sessions : List (Name × Tracker C V)

-- No message types: a phase that works in its hooks alone.
abbrev pub is_idle : List Name → Bool
is_idle [] = true
is_idle (_ ∷ _) = false

module _ {C V : Type 0} where
  -- The session is in the next phase, which has not been entered.
  unfoldable pub move_to : Tracker C V → C → Name → Phase C V → Tracker C V
  move_to t c next q = record t { ctx = c; state = next; current = some q; entered = false }

  -- After Enter: a phase that waits for messages or is not complete stops the cascade.
  unfoldable pub after_enter :
      Phase C V
      → Tracker C V
      → C × Option Fault
      → (Tracker C V → Tracker C V × Outcome Bool)
      → Tracker C V × Outcome Bool
  after_enter q t (c, some e) again = (record t { ctx = c }, failed (hook e))
  after_enter q t (c, none) again =
      let t' = record t { ctx = c; entered = true } in
      let rest = again t' in
      if not (is_idle q.consumed)
      then (t', done true)
      else (if not (q.check_complete c) then (t', done true) else rest)

  unfoldable pub after_exit :
      Built C V
      → Phase C V
      → Tracker C V
      → C × Option Fault
      → (Tracker C V → Tracker C V × Outcome Bool)
      → Tracker C V × Outcome Bool
  unfolding move_to after_enter
  after_exit b p t (c, some e) again = (record t { ctx = c }, failed (hook e))
  after_exit b p t (c, none) again =
      if is_none p.exit_state
      then (record t { ctx = c; state = []; current = none }, done true)
      else elim (lookup p.exit_state b.by_entry) [
        | none ↦ (record t { ctx = c }, failed framework_bug)
        | some q ↦ after_enter q (move_to t c p.exit_state q) (q.enter c) again
      ]

  -- One round of the cascade for each unit of fuel.
  unfoldable pub advance_loop : Built C V → ℕ → Tracker C V → Tracker C V × Outcome Bool
  unfolding after_exit
  advance_loop b zero t = (t, failed framework_bug)
  advance_loop b (suc hops) t = elim t.current [
    | none ↦ (t, panicked)
    | some p ↦ after_exit b p t (p.exit t.ctx) (advance_loop b hops)
  ]

  unfoldable pub advance : Runner C V → Tracker C V → Tracker C V × Outcome Bool
  unfolding advance_loop
  advance r t = advance_loop r.built (r.phase_count + 1) t

  abbrev pub put_session : Runner C V → Name → Tracker C V → Runner C V
  put_session r id t = record r { sessions = insert id t r.sessions }

  unfoldable pub deliver :
      Runner C V → Tracker C V → Phase C V → C × Option Fault → Tracker C V × Outcome Bool
  unfolding advance
  deliver r t p (c, some e) = (record t { ctx = c }, failed (hook e))
  deliver r t p (c, none) =
      let t' = record t { ctx = c } in
      let next = advance r t' in if not (p.check_complete c) then (t', done false) else next

  unfoldable pub message_to :
      Runner C V → Tracker C V → Name → Name → Bytes → Tracker C V × Outcome Bool
  unfolding deliver
  message_to r t type from payload = elim t.current [
    | none ↦ (t, panicked)
    | some p ↦
        if contains p.consumed type
        then deliver r t p (p.on_message t.ctx type from payload)
        else (t, failed permanent)
  ]

  abbrev pub message_in :
      Runner C V → Name → Name → Name → Bytes → Option (Tracker C V) → Runner C V × Outcome Bool
  message_in r id type from payload none = (r, failed permanent)
  message_in r id type from payload (some t) =
      let (t', o) = message_to r t type from payload in (put_session r id t', o)

  unfoldable pub handle_message :
      Runner C V → Name → Name → Name → Bytes → Runner C V × Outcome Bool
  handle_message r id type from payload = message_in r id type from payload (lookup id r.sessions)

  unfoldable pub end_session : Runner C V → Name → Runner C V
  end_session r id = record r { sessions = delete id r.sessions }

  unfoldable pub after_begin :
      Runner C V → Name → Phase C V → C × Option Fault → Runner C V × Outcome C
  after_begin r id p (c, some e) = (record r { sessions = delete id r.sessions }, failed (hook e))
  after_begin r id p (c, none) = (
    put_session r id
        (record { ctx = c; state = r.built.initial; current = some p; entered = true }),
    done c,
  )

  -- The session's first phase is entered and no more.
  unfoldable pub begin_session : Runner C V → Name → Name → Runner C V × Outcome C
  unfolding after_begin
  begin_session r id cohort =
      if is_none id then (r, failed permanent) else elim (lookup id r.sessions) [
        | some _ ↦ (r, failed permanent)
        | none ↦ elim (lookup r.built.initial r.built.by_entry) [
          | none ↦ (r, failed framework_bug)
          | some p ↦ after_begin r id p (p.enter (r.new_context id cohort))
        ]
      ]

  unfoldable pub current_state : Runner C V → Name → Option Name
  current_state r id = elim (lookup id r.sessions) [ none ↦ none | some t ↦ some t.state ]

  unfoldable pub phase_for_state : Built C V → Name → Option (Phase C V)
  phase_for_state b s = elim (lookup s b.by_entry) [
    | some p ↦ some p
    | none ↦ lookup s b.by_internal
  ]
