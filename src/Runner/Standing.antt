-- ===== src/Runner/Standing.antt =====
-- Where one session of a runner (pkg/ares/phase/runner.go) stands: its state and its phase agree.
use ares_energy_demo.Prelude.{
  ℕ, zero, suc, ◌+◌, ◌≡◌, refl, Bool, true, [], Option, none, some, ◌==◌, lookup, contains,
  Bool-cases, Option-cases, inl, inr,
}
use ares_energy_demo.Auction.State.{Bytes}
use ares_energy_demo.Runner.Types.{Name, name_eq, is_none, Phase, Fault}
use ares_energy_demo.Runner.Compose.{Built}
use ares_energy_demo.Runner.Sessions.{
  Outcome, Tracker, Runner, move_to, is_idle, after_enter, after_exit, advance_loop, advance,
  deliver, message_to,
}
use ares_energy_demo.Runner.Advance.{
  after_catch_up, after_leave, walk_to, is_within, advance_tracker,
}

module _ {C V : Type 0} where
  abbrev pub Standing : Built C V → Name → Option (Phase C V) → Type 0
  Standing b s none = s ≡ []
  Standing b s (some p) = lookup s b.by_entry ≡ some p

  -- The session is in the phase that claims its state, or it is over, in StateNone.
  abbrev pub Placed : Built C V → Tracker C V → Type 0
  Placed b t = Standing b t.state t.current

  after_enter-Placed :
      (b : Built C V) (q : Phase C V) (t : Tracker C V) (r : C × Option Fault)
      (again : Tracker C V → Tracker C V × Outcome Bool)
      → Placed b t
      → ((t : Tracker C V) → Placed b t → Placed b (again t).0)
      → Placed b (after_enter q t r again).0
  unfolding after_enter
  after_enter-Placed b q t (c, some e) again h f = h
  after_enter-Placed b q t (c, none) again h f = elim (Bool-cases (is_idle q.consumed)) [
    | inr i ↦ simp i h
    | inl i ↦ elim (Bool-cases (q.check_complete c)) [
      | inl k ↦ simp (i, k) (f (record t { ctx = c; entered = true }) h)
      | inr k ↦ simp (i, k) h
    ]
  ]

  after_exit-Placed :
      (b : Built C V) (p : Phase C V) (t : Tracker C V) (r : C × Option Fault)
      (again : Tracker C V → Tracker C V × Outcome Bool)
      → Placed b t
      → ((t : Tracker C V) → Placed b t → Placed b (again t).0)
      → Placed b (after_exit b p t r again).0
  unfolding after_exit move_to
  after_exit-Placed b p t (c, some e) again h f = h
  after_exit-Placed b p t (c, none) again h f = elim (Bool-cases (is_none p.exit_state)) [
    | inl i ↦ simp i refl
    | inr i ↦ elim (Option-cases (lookup p.exit_state b.by_entry)) [
      | inl e ↦ simp (i, e) h
      | inr (q, e) ↦
          simp (i, e) (after_enter-Placed b q (move_to t c p.exit_state q) (q.enter c) again e f)
    ]
  ]

  advance_round-Placed :
      (b : Built C V) (hops : ℕ) (c : C) (s : Name) (o : Option (Phase C V)) (i : Bool)
      → ((t : Tracker C V) → Placed b t → Placed b (advance_loop b hops t).0)
      → Standing b s o
      → Placed b
          (advance_loop b (suc hops) (record { ctx = c; state = s; current = o; entered = i })).0
  unfolding advance_loop
  advance_round-Placed b hops c s none i f h = h
  advance_round-Placed b hops c s (some p) i f h =
      after_exit-Placed b p (record { ctx = c; state = s; current = some p; entered = i })
        (p.exit c) (advance_loop b hops) h f

  advance_loop-Placed :
      (b : Built C V) (hops : ℕ) (t : Tracker C V) → Placed b t → Placed b (advance_loop b hops t).0
  unfolding advance_loop
  advance_loop-Placed b zero t h = h
  advance_loop-Placed b (suc hops) t h =
      advance_round-Placed b hops t.ctx t.state t.current t.entered (advance_loop-Placed b hops) h

  deliver-Placed :
      (r : Runner C V) (t : Tracker C V) (p : Phase C V) (o : C × Option Fault)
      → Placed r.built t
      → Placed r.built (deliver r t p o).0
  unfolding deliver advance
  deliver-Placed r t p (c, some e) h = h
  deliver-Placed r t p (c, none) h = elim (Bool-cases (p.check_complete c)) [
    | inl k ↦ simp k (advance_loop-Placed r.built (r.phase_count + 1) (record t { ctx = c }) h)
    | inr k ↦ simp k h
  ]

  pub message_at-Placed :
      (r : Runner C V) (c : C) (s : Name) (o : Option (Phase C V)) (i : Bool) (type from : Name)
      (payload : Bytes)
      → Standing r.built s o
      → Placed r.built
          (message_to r
            (record { ctx = c; state = s; current = o; entered = i })
            type
            from
            payload).0
  unfolding message_to
  message_at-Placed r c s none i type from payload h = h
  message_at-Placed r c s (some p) i type from payload h =
      elim (Bool-cases (contains p.consumed type)) [
        | inl k ↦ simp k (
            deliver-Placed r (record { ctx = c; state = s; current = some p; entered = i }) p
              (p.on_message c type from payload) h)
        | inr k ↦ simp k h
      ]

  after_catch_up-Placed :
      (b : Built C V) (t : Tracker C V) (r : C × Option Fault)
      (again : Tracker C V → Tracker C V × Outcome (Unit {0}))
      → Placed b t
      → ((t : Tracker C V) → Placed b t → Placed b (again t).0)
      → Placed b (after_catch_up t r again).0
  unfolding after_catch_up
  after_catch_up-Placed b t (c, some e) again h f = h
  after_catch_up-Placed b t (c, none) again h f = f (record t { ctx = c; entered = true }) h

  after_leave-Placed :
      (b : Built C V) (p : Phase C V) (t : Tracker C V) (r : C × Option Fault)
      (again : Tracker C V → Tracker C V × Outcome (Unit {0}))
      → Placed b t
      → ((t : Tracker C V) → Placed b t → Placed b (again t).0)
      → Placed b (after_leave b p t r again).0
  unfolding after_leave move_to
  after_leave-Placed b p t (c, some e) again h f = h
  after_leave-Placed b p t (c, none) again h f = elim (Bool-cases (is_none p.exit_state)) [
    | inl i ↦ simp i h
    | inr i ↦ elim (Option-cases (lookup p.exit_state b.by_entry)) [
      | inl e ↦ simp (i, e) h
      | inr (q, e) ↦
          simp (i, e) (after_catch_up-Placed b (move_to t c p.exit_state q) (q.enter c) again e f)
    ]
  ]

  walk_round-Placed :
      (b : Built C V) (target : Name) (hops : ℕ) (c : C) (s : Name) (o : Option (Phase C V))
      (i : Bool)
      → ((t : Tracker C V) → Placed b t → Placed b (walk_to b target hops t).0)
      → Standing b s o
      → Placed b
          (walk_to b target (suc hops) (record { ctx = c; state = s; current = o; entered = i })).0
  unfolding walk_to
  walk_round-Placed b target hops c s none i f h = elim (Bool-cases (s == target)) [
    | inl k ↦ simp k h
    | inr k ↦ simp k h
  ]
  walk_round-Placed b target hops c s (some p) i f h = elim (Bool-cases (s == target)) [
    | inl k ↦ simp k h
    | inr k ↦ simp k (
        after_leave-Placed b p (record { ctx = c; state = s; current = some p; entered = i })
          (p.exit c) (walk_to b target hops) h f)
  ]

  walk_to-Placed :
      (b : Built C V) (target : Name) (hops : ℕ) (t : Tracker C V)
      → Placed b t
      → Placed b (walk_to b target hops t).0
  unfolding walk_to
  walk_to-Placed b target zero t h = h
  walk_to-Placed b target (suc hops) t h =
      walk_round-Placed b target hops t.ctx t.state t.current t.entered
        (walk_to-Placed b target hops) h

  pub advance_tracker-Placed :
      (r : Runner C V) (t : Tracker C V) (target : Name)
      → Placed r.built t
      → Placed r.built (advance_tracker r t target).0
  unfolding advance_tracker
  advance_tracker-Placed r t target h = elim (Bool-cases (t.state == target)) [
    | inl k ↦ simp k h
    | inr k ↦ elim (Bool-cases (is_within t.current target)) [
      | inl w ↦ simp (k, w) h
      | inr w ↦ simp (k, w) (walk_to-Placed r.built target (r.phase_count + 1) t h)
    ]
  ]
