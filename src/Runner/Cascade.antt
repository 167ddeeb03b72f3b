-- ===== src/Runner/Cascade.antt =====
-- The cascade of advance (pkg/ares/phase/runner.go) on a pipeline that Compose accepts.
use ares_energy_demo.Prelude.{
  ℕ, zero, suc, ◌+◌, ◌<◌, ◌≤◌, ◌≡◌, ◌≢◌, ◌⊎◌, refl, sym, ◌∙◌, ap, subst, Bool, true, false, List,
  [], ◌∷◌, Option, none, some, lookup, In, length, arith, Bool-cases, inl, inr,
}
use ares_energy_demo.Runner.Types.{Name, name_eq, is_none, Phase, Fault, Comparison, ok}
use ares_energy_demo.Runner.Compose.{Built, compose}
use ares_energy_demo.Runner.Sessions.{
  Outcome, done, failed, hook, Tracker, Runner, move_to, is_idle, after_enter, after_exit,
  advance_loop, advance,
}
use ares_energy_demo.Runner.Chain.{inlines, Chain, compose-Chain}

is_none-some : (s : Name) → s ≢ [] → is_none s ≡ false
is_none-some [] h = absurd (h refl)
is_none-some (c ∷ cs) h = refl

-- The call succeeds or passes on an error of a phase's own hook.
abbrev pub Fine : Outcome Bool → Type 0
Fine o = (o ≡ done true) ⊎ ((e : Fault) × (o ≡ failed (hook e)))

module _ {C V : Type 0} where
  -- The last phase exits into StateNone.
  abbrev pub Ends : List (Phase C V) → Type 0
  Ends [] = Unit {0}
  Ends (p ∷ []) = p.exit_state ≡ []
  Ends (p ∷ q ∷ ps) = Ends (q ∷ ps)

  -- What the runner finds under the phases' entry states.
  abbrev pub Claims : Built C V → List (Phase C V) → Type 0
  Claims b ps =
      (p : Phase C V) → In p ps → (lookup p.entry_state b.by_entry ≡ some p) × (p.entry_state ≢ [])

  after_enter-Fine :
      (q : Phase C V) (t : Tracker C V) (r : C × Option Fault)
      (again : Tracker C V → Tracker C V × Outcome Bool)
      → ((c : C) → Fine (again (record t { ctx = c; entered = true })).1)
      → Fine (after_enter q t r again).1
  unfolding after_enter
  after_enter-Fine q t (c, some e) again f = inr (e, refl)
  after_enter-Fine q t (c, none) again f = elim (Bool-cases (is_idle q.consumed)) [
    | inr i ↦ simp i (inl refl)
    | inl i ↦ elim (Bool-cases (q.check_complete c)) [
      | inl k ↦ simp (i, k) (f c)
      | inr k ↦ simp (i, k) (inl refl)
    ]
  ]

  after_last-Fine :
      (b : Built C V) (p : Phase C V) (t : Tracker C V) (r : C × Option Fault)
      (again : Tracker C V → Tracker C V × Outcome Bool)
      → p.exit_state ≡ []
      → Fine (after_exit b p t r again).1
  unfolding after_exit
  after_last-Fine b p t (c, some e) again h = inr (e, refl)
  after_last-Fine b p t (c, none) again h = simp (ap is_none h) (inl refl)

  after_exit-Fine :
      (b : Built C V) (p q : Phase C V) (t : Tracker C V) (r : C × Option Fault)
      (again : Tracker C V → Tracker C V × Outcome Bool)
      → p.exit_state ≡ q.entry_state
      → lookup q.entry_state b.by_entry ≡ some q
      → q.entry_state ≢ []
      → ((c : C) (i : Bool)
          → Fine
              (again (record { ctx = c; state = p.exit_state; current = some q; entered = i })).1)
      → Fine (after_exit b p t r again).1
  unfolding after_exit move_to
  after_exit-Fine b p q t (c, some e) again joins claimed named f = inr (e, refl)
  after_exit-Fine b p q t (c, none) again joins claimed named f =
      simp
        (
          is_none-some p.exit_state (λ e. named (sym joins ∙ e)),
          ap (λ s. lookup s b.by_entry) joins ∙ claimed,
        )
        (after_enter-Fine q (move_to t c p.exit_state q) (q.enter c) again (λ c'. f c' true))

  -- A phase with the phases that follow it.
  cascade-Fine :
      (b : Built C V) (p : Phase C V) (ps : List (Phase C V)) (hops : ℕ) (c : C) (s : Name)
      (i : Bool)
      → Chain (some p) ps
      → Ends (p ∷ ps)
      → Claims b ps
      → length ps < hops
      → Fine (advance_loop b hops (record { ctx = c; state = s; current = some p; entered = i })).1
  unfolding advance_loop
  cascade-Fine b p ps zero c s i chain ends claims enough = absurd (omega (arith, enough))
  cascade-Fine b p [] (suc hops) c s i chain ends claims enough =
      after_last-Fine b p (record { ctx = c; state = s; current = some p; entered = i }) (p.exit c)
        (advance_loop b hops) ends
  cascade-Fine b p (q ∷ qs) (suc hops) c s i (joins, chain) ends claims enough =
      let (claimed, named) = claims q (inl refl) in
      after_exit-Fine b p q (record { ctx = c; state = s; current = some p; entered = i })
        (p.exit c) (advance_loop b hops) joins claimed named
        (λ c' i'.
          cascade-Fine b q qs hops c' p.exit_state i' chain ends (λ r m. claims r (inr m))
            (omega (arith, enough)))

  length-inlines : (ps : List (Phase C V)) → length (inlines ps) ≤ length ps
  length-inlines [] = omega arith
  length-inlines (p ∷ ps) = ground (arith, length-inlines ps)

  -- From a phase of the chain on.
  Chain-from :
      (b : Built C V) (p : Phase C V) (o : Option (Phase C V)) (ps : List (Phase C V)) (hops : ℕ)
      (c : C) (s : Name) (i : Bool)
      → In p ps
      → Chain o ps
      → Ends ps
      → Claims b ps
      → length ps < hops
      → Fine (advance_loop b hops (record { ctx = c; state = s; current = some p; entered = i })).1
  Chain-from b p o [] hops c s i m chain ends claims enough = absurd m
  Chain-from b p o (q ∷ qs) hops c s i (inl same) (_, chain) ends claims enough =
      subst
        (λ r.
          Fine
            (advance_loop b hops (record { ctx = c; state = s; current = some r; entered = i })).1)
        same
        (cascade-Fine b q qs hops c s i chain ends (λ r m. claims r (inr m))
          (omega (arith, enough)))
  Chain-from b p o (q ∷ []) hops c s i (inr m) chain ends claims enough = absurd m
  Chain-from b p o (q ∷ q' ∷ qs) hops c s i (inr m) (_, chain) ends claims enough =
      Chain-from b p (some q) (q' ∷ qs) hops c s i m chain ends (λ r m'. claims r (inr m'))
        (omega (arith, enough))

  -- On a pipeline that Compose accepts and whose last inline phase exits into StateNone, the cascade
  -- that starts from one of its inline phases stays within the hop limit, finds every next phase and
  -- ends: advance succeeds or passes on an error of a phase's own hook.
  pub advance-Fine :
      (cmp : Comparison V) (ps : List (Phase C V)) (r : Runner C V) (t : Tracker C V)
      (p : Phase C V)
      → compose cmp ps ≡ ok r.built
      → r.phase_count ≡ length ps
      → Ends (inlines ps)
      → In p (inlines ps)
      → t.current ≡ some p
      → Fine (advance r t).1
  unfolding advance
  advance-Fine cmp ps r t p built count ends m here =
      let (chain, claims, named) = compose-Chain cmp ps r.built built in
      subst
        (λ o.
          Fine
            (advance_loop r.built (r.phase_count + 1)
              (record { ctx = t.ctx; state = t.state; current = o; entered = t.entered })).1)
        (sym here)
        (Chain-from r.built p none (inlines ps) (r.phase_count + 1) t.ctx t.state t.entered m chain
          ends (λ q n. (claims q n, named q n)) (omega (arith, count, length-inlines ps)))
