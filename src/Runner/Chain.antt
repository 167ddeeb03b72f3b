-- ===== src/Runner/Chain.antt =====
-- What Compose of pkg/ares/phase/runner.go guarantees of the pipelines that it accepts.
use ares_energy_demo.Prelude.{
  ◌≡◌, refl, ◌∙◌, ap, subst, ◌≢◌, Bool, true, false, List, [], ◌∷◌, Option, none, some, arith,
  if◌then◌else◌, lookup, insert, lookup-insert, In, contains, Bool-cases, Option-cases, inl, inr,
  ◌⊎◌,
}
use ares_energy_demo.Runner.Types.{
  Name, name_eq, name_beq_iff, is_none, Comparison, Phase, ComposeError, Result, ok, err, ◌>>=◌,
  ◌>>◌, reject,
}
use ares_energy_demo.Runner.Compose.{
  Built, is_claimed, add_internals, connect_phase, add_inline, add_phase, add_phases, unbuilt,
  compose, validate_requires, add_provided,
}

>>=-eq-ok :
    {S T : Type 0} (first : Result S) (then' : S → Result T) {t : T}
    → (first >>= then') ≡ ok t
    → (s : S) × (first ≡ ok s) × (then' s ≡ ok t)
>>=-eq-ok (ok s) then' h = (s, refl, h)
>>=-eq-ok (err e) then' h = absurd (ground (arith, h))

-- A refusal that was passed: its test failed and the rest succeeded.
reject-passed :
    {B : Type 0} (t : Bool) (e : ComposeError) (m : Result B) {b : B}
    → (reject t e >> m) ≡ ok b
    → (t ≡ false) × (m ≡ ok b)
reject-passed true e m h = absurd (ground (arith, h))
reject-passed false e m h = (refl, h)

unclaimed :
    {C V : Type 0} (m : List (Name × Phase C V)) (s : Name)
    → is_claimed m s ≡ false
    → lookup s m ≡ none
unclaimed m s h = elim (Option-cases (lookup s m)) [
  | inl e ↦ e
  | inr (p, e) ↦ absurd (ground (arith, h, e))
]

inline_branch :
    {A : Type 0} (t : Bool) (m n : Result A) {b : A}
    → t ≡ true
    → (if t then m else n) ≡ ok b
    → m ≡ ok b
inline_branch t m n e h = rw e at h

skipped_branch :
    {A : Type 0} (t : Bool) (m n : Result A) {b : A}
    → t ≡ false
    → (if t then m else n) ≡ ok b
    → n ≡ ok b
skipped_branch t m n e h = rw e at h

insert-claims :
    {C V : Type 0} (k s : Name) (p q : Phase C V) (m : List (Name × Phase C V))
    → lookup k m ≡ none
    → lookup s m ≡ some q
    → lookup s (insert k p m) ≡ some q
insert-claims k s p q m free h =
    ground (arith, lookup-insert k s p m, name_beq_iff k s, ap (λ z. lookup z m) {x = k} {y = s})

module _ {C V : Type 0} where
  -- The inline phases, in order.
  abbrev pub inlines : List (Phase C V) → List (Phase C V)
  inlines [] = []
  inlines (p ∷ ps) = if p.is_inline then p ∷ inlines ps else inlines ps

  abbrev pub Joins : Option (Phase C V) → Phase C V → Type 0
  Joins none p = Unit {0}
  Joins (some q) p = q.exit_state ≡ p.entry_state

  -- Each phase begins where the one before it ends.
  abbrev pub Chain : Option (Phase C V) → List (Phase C V) → Type 0
  Chain q [] = Unit {0}
  Chain q (p ∷ ps) = Joins q p × Chain (some p) ps

  -- What the loop had claimed stays claimed.
  abbrev pub Extends : Built C V → Built C V → Type 0
  Extends b b' =
      (s : Name) (q : Phase C V) → lookup s b.by_entry ≡ some q → lookup s b'.by_entry ≡ some q

  add_internals-keeps :
      (p : Phase C V) (ss : List Name) (b b' : Built C V)
      → add_internals p ss b ≡ ok b'
      → (b'.by_entry ≡ b.by_entry) × (b'.prev ≡ b.prev) × (b'.initial ≡ b.initial)
  unfolding add_internals
  add_internals-keeps p [] b b' h = ground arith
  add_internals-keeps p (s ∷ ss) b b' h =
      ground
        (arith, add_internals-keeps p ss (record b { by_internal = insert s p b.by_internal }) b')

  connect_phase-Joins :
      (p : Phase C V) (o : Option (Phase C V)) (b b' : Built C V)
      → connect_phase p o b ≡ ok b'
      → Joins o p × (b'.prev ≡ some p) × (b'.by_entry ≡ b.by_entry)
  unfolding connect_phase
  connect_phase-Joins p none b b' h = (tt, ground arith, ground arith)
  connect_phase-Joins p (some q) b b' h = ground (arith, name_beq_iff q.exit_state p.entry_state)

  -- An inline phase that is accepted follows the one before it and claims its entry state.
  record Accepted (p : Phase C V) (b b' : Built C V) : Type 0 where
    follows : Joins b.prev p
    last : b'.prev ≡ some p
    claims : lookup p.entry_state b'.by_entry ≡ some p
    keeps : Extends b b'
    enters : p.entry_state ≢ []

  add_inline-Accepted :
      (p : Phase C V) (b b' : Built C V) → add_inline p b ≡ ok b' → Accepted p b b'
  unfolding add_inline
  add_inline-Accepted p b b' h =
      let (nonempty, h₁) = reject-passed (is_none p.entry_state) _ _ h in
      let (free, h₂) = reject-passed (is_claimed b.by_entry p.entry_state) _ _ h₁ in
      let claimed = record b { by_entry = insert p.entry_state p b.by_entry } in
      let (c, h₃, h₄) = >>=-eq-ok (add_internals p p.internal_states claimed) _ h₂ in
      let (entries, prev, _) = add_internals-keeps p p.internal_states claimed c h₃ in
      let (joins, last, same) = connect_phase-Joins p c.prev c b' h₄ in
      record {
        follows = subst (λ o. Joins o p) prev joins;
        last = last;
        claims =
            ap (lookup p.entry_state) (same ∙ entries)
            ∙ lookup-insert p.entry_state p.entry_state p b.by_entry
            ∙ ground (arith, name_beq_iff p.entry_state p.entry_state);
        keeps = λ s q k.
            ap (lookup s) (same ∙ entries)
            ∙ insert-claims p.entry_state s p q b.by_entry (unclaimed b.by_entry p.entry_state free)
                k;
        enters = λ e. ground (arith, nonempty, e);
      }

  -- A phase that is not inline changes nothing of the chain.
  add_phase-cases :
      (cmp : Comparison V) (p : Phase C V) (b b' : Built C V)
      → add_phase cmp p b ≡ ok b'
      → ((p.is_inline ≡ true) × Accepted p b b')
        ⊎ ((p.is_inline ≡ false) × (b'.prev ≡ b.prev) × (b'.by_entry ≡ b.by_entry))
  unfolding add_phase
  add_phase-cases cmp p b b' h =
      let (_, h₁) = reject-passed (is_none p.name) _ _ h in
      let (_, h₂) = reject-passed (contains b.names p.name) _ _ h₁ in
      let (_, _, h₃) = >>=-eq-ok (validate_requires cmp p.requires b.provided) _ h₂ in
      let named = record b {
        names = p.name ∷ b.names;
        provided = add_provided p.provides b.provided;
      } in
      elim (Bool-cases p.is_inline) [
        | inl e ↦
            let a = add_inline-Accepted p named b' (inline_branch p.is_inline _ _ e h₃) in
            inl (
              e,
              record {
                follows = a.follows;
                last = a.last;
                claims = a.claims;
                keeps = a.keeps;
                enters = a.enters;
              },
            )
        | inr e ↦
            let unchanged = skipped_branch p.is_inline _ _ e h₃ in
            inr (e, ground (arith, unchanged), ground (arith, unchanged))
      ]

  -- The pipeline from a phase on, with what the result claims for it.
  add_phases-Chain :
      (cmp : Comparison V) (ps : List (Phase C V)) (b b' : Built C V)
      → add_phases cmp ps b ≡ ok b'
      → Chain b.prev (inlines ps)
        × ((p : Phase C V) → In p (inlines ps) → lookup p.entry_state b'.by_entry ≡ some p)
        × ((p : Phase C V) → In p (inlines ps) → p.entry_state ≢ [])
        × Extends b b'
  unfolding add_phases
  add_phases-Chain cmp [] b b' h =
      (tt, (λ p m. absurd m), (λ p m. absurd m), λ s q k. ground (arith, h, k))
  add_phases-Chain cmp (p ∷ ps) b b' h =
      let (c, h₁, h₂) = >>=-eq-ok (add_phase cmp p b) _ h in
      let (chain, claims, enters, keeps) = add_phases-Chain cmp ps c b' h₂ in
      elim (add_phase-cases cmp p b c h₁) [
        | inr (e, prev, same) ↦ simp e (
          subst (λ o. Chain o (inlines ps)) prev chain,
          claims,
          enters,
          λ s q k. keeps s q (ap (lookup s) same ∙ k),
        )
        | inl (e, a) ↦ simp e (
          (a.follows, subst (λ o. Chain o (inlines ps)) a.last chain),
          (λ q m. elim m [
            | inl same ↦
                subst (λ r. lookup r.entry_state b'.by_entry ≡ some r) same
                  (keeps p.entry_state p a.claims)
            | inr later ↦ claims q later
          ]),
          (λ q m. elim m [
            | inl same ↦ subst (λ r. r.entry_state ≢ []) same a.enters
            | inr later ↦ enters q later
          ]),
          λ s q k. keeps s q (a.keeps s q k),
        )
      ]

  -- A pipeline that Compose accepts is connected: each inline phase begins in the state in which the
  -- inline phase before it ends. Each of them has an entry state, under which the runner finds that
  -- phase and no other.
  pub compose-Chain :
      (cmp : Comparison V) (ps : List (Phase C V)) (b : Built C V)
      → compose cmp ps ≡ ok b
      → Chain none (inlines ps)
        × ((p : Phase C V) → In p (inlines ps) → lookup p.entry_state b.by_entry ≡ some p)
        × ((p : Phase C V) → In p (inlines ps) → p.entry_state ≢ [])
  unfolding compose
  compose-Chain cmp [] b h = absurd (ground (arith, h))
  compose-Chain cmp (p ∷ ps) b h =
      let (chain, claims, enters, _) = add_phases-Chain cmp (p ∷ ps) unbuilt b h in
      (chain, claims, enters)
