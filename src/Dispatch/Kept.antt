-- ===== src/Dispatch/Kept.antt =====
-- One round of a cascade of a runner with lineage keeps its store closed.
use ares_energy_demo.Prelude.{
  ◌≡◌, subst, Bool, true, Option, none, some, lookup, arith, Bool-cases, Option-cases, inl, inr,
}
use ares_energy_demo.Auction.State.{Bytes}
use ares_energy_demo.Runner.Types.{Name, name_eq, is_none, Phase, Fault}
use ares_energy_demo.Runner.Compose.{Built}
use ares_energy_demo.Runner.Sessions.{Outcome, Tracker, move_to, after_enter, after_exit, is_idle}
use ares_energy_demo.Runner.Advance.{after_leave, after_catch_up}
use ares_energy_demo.Dispatch.Sessions.{Shared}
use ares_energy_demo.Dispatch.Closed.{Closed}

module _ {C V : Type 0} where
  -- The phase's hooks keep the store closed: they do not touch it, or commit with stored parents.
  pub record KeepsClosed (p : Phase (Shared C) V) : Type 0 where
    pub on_enter : (c : Shared C) → Closed c.1 → Closed (p.enter c).0.1
    pub on_exit : (c : Shared C) → Closed c.1 → Closed (p.exit c).0.1
    pub on_receipt :
        (c : Shared C) (type from : Name) (payload : Bytes)
        → Closed c.1
        → Closed (p.on_message c type from payload).0.1

  -- A session's context has a closed store and its phase keeps it.
  pub record Sound (t : Tracker (Shared C) V) : Type 0 where
    pub closed : Closed t.ctx.1
    pub keeps : (p : Phase (Shared C) V) → t.current ≡ some p → KeepsClosed p

  abbrev pub BuiltKeeps : Built (Shared C) V → Type 0
  BuiltKeeps b =
      (state : Name) (p : Phase (Shared C) V) → lookup state b.by_entry ≡ some p → KeepsClosed p

  abbrev pub Keeps :
      {A : Type 0} → (Tracker (Shared C) V → Tracker (Shared C) V × Outcome A) → Type 0
  Keeps f = (t : Tracker (Shared C) V) → Sound t → Sound (f t).0

  pub Sound-with :
      (t : Tracker (Shared C) V) (c : Shared C)
      → Sound t
      → Closed c.1
      → Sound (record t { ctx = c })
  Sound-with t c sound closed = record { closed = closed; keeps = sound.keeps }

  Sound-moved :
      (t : Tracker (Shared C) V) (c d : Shared C) (next : Name) (q : Phase (Shared C) V)
      (entered : Bool)
      → KeepsClosed q
      → Closed d.1
      → Sound (record (move_to t c next q) { ctx = d; entered = entered })
  unfolding move_to
  Sound-moved t c d next q entered keeps closed = record {
    closed = closed;
    keeps = λ p e. subst KeepsClosed (ground (arith, e)) keeps;
  }

  after_enter-Sound :
      (q : Phase (Shared C) V) (t : Tracker (Shared C) V) (r : Shared C × Option Fault)
      (again : Tracker (Shared C) V → Tracker (Shared C) V × Outcome Bool)
      → ((e : Bool) → Sound (record t { ctx = r.0; entered = e }))
      → Keeps again
      → Sound (after_enter q t r again).0
  unfolding after_enter
  after_enter-Sound q t (c, some e) again sound next = sound t.entered
  after_enter-Sound q t (c, none) again sound next = elim (Bool-cases (is_idle q.consumed)) [
    | inl e ↦ elim (Bool-cases (q.check_complete c)) [
      | inl k ↦ simp (e, k) (next (record t { ctx = c; entered = true }) (sound true))
      | inr k ↦ simp (e, k) (sound true)
    ]
    | inr e ↦ simp e (sound true)
  ]

  pub after_exit-Sound :
      (b : Built (Shared C) V) (p : Phase (Shared C) V) (t : Tracker (Shared C) V)
      (r : Shared C × Option Fault)
      (again : Tracker (Shared C) V → Tracker (Shared C) V × Outcome Bool)
      → BuiltKeeps b
      → Sound t
      → Closed r.0.1
      → Keeps again
      → Sound (after_exit b p t r again).0
  unfolding after_exit
  after_exit-Sound b p t (c, some e) again built sound closed next = Sound-with t c sound closed
  after_exit-Sound b p t (c, none) again built sound closed next =
      elim (Bool-cases (is_none p.exit_state)) [
        | inl e ↦ simp e (record { closed = closed; keeps = λ q z. absurd (ground (arith, z)) })
        | inr e ↦ elim (Option-cases (lookup p.exit_state b.by_entry)) [
          | inl k ↦ simp (e, k) (Sound-with t c sound closed)
          | inr (q, k) ↦
              simp (e, k)
                (after_enter-Sound q (move_to t c p.exit_state q) (q.enter c) again
                  (λ x.
                    Sound-moved t c (q.enter c).0 p.exit_state q x (built p.exit_state q k)
                      ((built p.exit_state q k).on_enter c closed))
                  next)
        ]
      ]

  after_catch_up-Sound :
      (t : Tracker (Shared C) V) (r : Shared C × Option Fault)
      (again : Tracker (Shared C) V → Tracker (Shared C) V × Outcome (Unit {0}))
      → ((e : Bool) → Sound (record t { ctx = r.0; entered = e }))
      → Keeps again
      → Sound (after_catch_up t r again).0
  unfolding after_catch_up
  after_catch_up-Sound t (c, some e) again sound next = sound t.entered
  after_catch_up-Sound t (c, none) again sound next =
      next (record t { ctx = c; entered = true }) (sound true)

  pub after_leave-Sound :
      (b : Built (Shared C) V) (p : Phase (Shared C) V) (t : Tracker (Shared C) V)
      (r : Shared C × Option Fault)
      (again : Tracker (Shared C) V → Tracker (Shared C) V × Outcome (Unit {0}))
      → BuiltKeeps b
      → Sound t
      → Closed r.0.1
      → Keeps again
      → Sound (after_leave b p t r again).0
  unfolding after_leave
  after_leave-Sound b p t (c, some e) again built sound closed next = Sound-with t c sound closed
  after_leave-Sound b p t (c, none) again built sound closed next =
      elim (Bool-cases (is_none p.exit_state)) [
        | inl e ↦ simp e (Sound-with t c sound closed)
        | inr e ↦ elim (Option-cases (lookup p.exit_state b.by_entry)) [
          | inl k ↦ simp (e, k) (Sound-with t c sound closed)
          | inr (q, k) ↦
              simp (e, k)
                (after_catch_up-Sound (move_to t c p.exit_state q) (q.enter c) again
                  (λ x.
                    Sound-moved t c (q.enter c).0 p.exit_state q x (built p.exit_state q k)
                      ((built p.exit_state q k).on_enter c closed))
                  next)
        ]
      ]
