-- ===== src/Runner/Placement.antt =====
-- Where the sessions of a runner (pkg/ares/phase/runner.go) stand: their state and their phase agree.
use ares_energy_demo.Prelude.{
  ◌≡◌, sym, subst, true, List, [], ◌∷◌, Option, none, some, ◌==◌, lookup, lookup-insert,
  lookup-delete, arith, Bool-cases, Option-cases, inl, inr,
}
use ares_energy_demo.Auction.State.{Bytes}
use ares_energy_demo.Runner.Types.{Name, name_eq, is_none, Phase, Fault}
use ares_energy_demo.Runner.Sessions.{
  Tracker, Runner, put_session, message_to, message_in, handle_message, after_begin, begin_session,
  end_session,
}
use ares_energy_demo.Runner.Advance.{
  advance_tracker, advance_in, advance_to_state, Call, begin, message, advance_to, end, perform,
  perform_all,
}
use ares_energy_demo.Runner.Standing.{Placed, message_at-Placed, advance_tracker-Placed}

module _ {C V : Type 0} where
  -- Every session of the runner is placed.
  abbrev pub AllPlaced : Runner C V → Type 0
  AllPlaced r = (id : Name) (t : Tracker C V) → lookup id r.sessions ≡ some t → Placed r.built t

  put_session-AllPlaced :
      (r : Runner C V) (id : Name) (t : Tracker C V)
      → AllPlaced r
      → Placed r.built t
      → AllPlaced (put_session r id t)
  put_session-AllPlaced r id t a h j u e = elim (Bool-cases (id == j)) [
    | inl k ↦
        subst (Placed r.built) {x = t} {y = u}
          (ground (arith, e, k, lookup-insert id j t r.sessions)) h
    | inr k ↦ a j u (ground (arith, e, k, lookup-insert id j t r.sessions))
  ]

  end_session-AllPlaced : (r : Runner C V) (id : Name) → AllPlaced r → AllPlaced (end_session r id)
  unfolding end_session
  end_session-AllPlaced r id a j u e = elim (Bool-cases (id == j)) [
    | inl k ↦ absurd (ground (arith, e, k, lookup-delete id j r.sessions))
    | inr k ↦ a j u (ground (arith, e, k, lookup-delete id j r.sessions))
  ]

  after_begin-AllPlaced :
      (r : Runner C V) (id : Name) (p : Phase C V) (o : C × Option Fault)
      → AllPlaced r
      → lookup r.built.initial r.built.by_entry ≡ some p
      → AllPlaced (after_begin r id p o).0
  unfolding after_begin end_session
  after_begin-AllPlaced r id p (c, some e) a h = end_session-AllPlaced r id a
  after_begin-AllPlaced r id p (c, none) a h =
      put_session-AllPlaced r id
        (record { ctx = c; state = r.built.initial; current = some p; entered = true }) a h

  begin_session-AllPlaced :
      (r : Runner C V) (id cohort : Name) → AllPlaced r → AllPlaced (begin_session r id cohort).0
  unfolding begin_session
  begin_session-AllPlaced r id cohort a = elim (Bool-cases (is_none id)) [
    | inl k ↦ simp k a
    | inr k ↦ elim (Option-cases (lookup id r.sessions)) [
      | inr (t, e) ↦ simp (k, e) a
      | inl e ↦ elim (Option-cases (lookup r.built.initial r.built.by_entry)) [
        | inl f ↦ simp (k, e, f) a
        | inr (p, f) ↦
            simp (k, e, f) (after_begin-AllPlaced r id p (p.enter (r.new_context id cohort)) a f)
      ]
    ]
  ]

  handle_message-AllPlaced :
      (r : Runner C V) (id type from : Name) (payload : Bytes)
      → AllPlaced r
      → AllPlaced (handle_message r id type from payload).0
  unfolding handle_message
  handle_message-AllPlaced r id type from payload a = elim (Option-cases (lookup id r.sessions)) [
    | inl e ↦ subst (λ o. AllPlaced (message_in r id type from payload o).0) (sym e) a
    | inr (t, e) ↦
        subst (λ o. AllPlaced (message_in r id type from payload o).0) (sym e)
          (put_session-AllPlaced r id (message_to r t type from payload).0 a
            (message_at-Placed r t.ctx t.state t.current t.entered type from payload (a id t e)))
  ]

  advance_to_state-AllPlaced :
      (r : Runner C V) (id target : Name) → AllPlaced r → AllPlaced (advance_to_state r id target).0
  unfolding advance_to_state
  advance_to_state-AllPlaced r id target a = elim (Option-cases (lookup id r.sessions)) [
    | inl e ↦ subst (λ o. AllPlaced (advance_in r id target o).0) (sym e) a
    | inr (t, e) ↦
        subst (λ o. AllPlaced (advance_in r id target o).0) (sym e)
          (put_session-AllPlaced r id (advance_tracker r t target).0 a
            (advance_tracker-Placed r t target (a id t e)))
  ]

  perform-AllPlaced : (r : Runner C V) (c : Call) → AllPlaced r → AllPlaced (perform r c)
  unfolding perform
  perform-AllPlaced r (begin id cohort) a = begin_session-AllPlaced r id cohort a
  perform-AllPlaced r (message id type from payload) a =
      handle_message-AllPlaced r id type from payload a
  perform-AllPlaced r (advance_to id target) a = advance_to_state-AllPlaced r id target a
  perform-AllPlaced r (end id) a = end_session-AllPlaced r id a

  -- In a runner whose sessions are all placed, they are all placed after any sequence of
  -- BeginSession, HandleMessage, AdvanceToState and EndSession calls, failed ones included: a session's
  -- phase is the one that claims the session's state, or the session has no phase and is in StateNone.
  pub perform_all-AllPlaced :
      (r : Runner C V) (cs : List Call) → AllPlaced r → AllPlaced (perform_all r cs)
  perform_all-AllPlaced r [] a = a
  perform_all-AllPlaced r (c ∷ cs) a =
      perform_all-AllPlaced (perform r c) cs (perform-AllPlaced r c a)
