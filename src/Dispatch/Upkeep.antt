-- ===== src/Dispatch/Upkeep.antt =====
-- What the calls on a runner with lineage keep.
use ares_energy_demo.Prelude.{
  ℕ, ◌≡◌, refl, sym, ◌∙◌, ap, subst, true, List, [], ◌∷◌, Option, none, some, ◌==◌, lookup, delete,
  lookup-insert, lookup-delete, All, arith, Bool-cases, Option-cases, inl, inr,
}
use ares_energy_demo.Auction.State.{Bytes}
use ares_energy_demo.Runner.Types.{Name, name_eq, is_none, Phase, Fault}
use ares_energy_demo.Runner.Sessions.{Outcome, done, Tracker}
use ares_energy_demo.Lineage.Node.{NodeRef, DagNode}
use ares_energy_demo.Lineage.Verify.{MismatchError, verify}
use ares_energy_demo.Lineage.Store.{InMemoryStore, append}
use ares_energy_demo.Dispatch.Outputs.{Reads, kept}
use ares_energy_demo.Dispatch.Sessions.{Shared, lineage_message_to, lineage_advance}
use ares_energy_demo.Dispatch.Messages.{
  LineageRunner, FailureKind, missing_parent, fire_failure_hook, failure, mismatch_confirmed,
  mismatch_false_claim, report_false_lineage_claim, seeing, put_back, lineage_message_in,
  handle_plain_message, advance_session, advance_lineage_session, checked_message,
  handle_lineage_message, entered_session, begin_lineage_session,
}
use ares_energy_demo.Dispatch.Closed.{Stored, Closed, append-Closed}
use ares_energy_demo.Dispatch.Kept.{KeepsClosed, Sound, BuiltKeeps}
use ares_energy_demo.Dispatch.Cascades.{message_to-Sound, advance-Sound}
use ares_energy_demo.Dispatch.Calls.{
  LineageCall, begin, frame, message, advance_to, end, false_claim, perform_call, perform_calls,
}

pub missing_parent-Stored :
    (s : InMemoryStore) (ps : List NodeRef) → missing_parent s ps ≡ none → All (Stored s) ps
missing_parent-Stored s [] e = tt
missing_parent-Stored s (p ∷ ps) e = elim (Option-cases (lookup p s.by_hash)) [
  | inl k ↦ absurd (ground (arith, k, e))
  | inr (n, k) ↦ ((n, k), missing_parent-Stored s ps (ground (arith, k, e)))
]

module _ {C V : Type 0} (sha256 : Bytes → NodeRef) (reads : Reads C)
    (new_context : Name → Name → C) where
  -- The store is closed under parents, and the hooks of the phases keep it so.
  pub record ClosedRunner (r : LineageRunner C V) : Type 0 where
    pub closed : Closed r.store
    pub built_keeps : BuiltKeeps r.built
    pub sessions_keep :
        (id : Name) (t : Tracker (Shared C) V) (p : Phase (Shared C) V)
        → lookup id r.sessions ≡ some t
        → t.current ≡ some p
        → KeepsClosed p

  put_back-Closed :
      {A : Type 0} (r : LineageRunner C V) (id : Name) (o : Tracker (Shared C) V × Outcome A)
      → ClosedRunner r
      → Sound o.0
      → ClosedRunner (put_back r id o).0
  put_back-Closed r id (t, o) i sound = record {
    closed = sound.closed;
    built_keeps = i.built_keeps;
    sessions_keep = λ j u p found e. elim (Bool-cases (id == j)) [
      | inl k ↦
          let same : t ≡ u = ground (arith, k, lookup-insert id j t r.sessions, found) in
          sound.keeps p (ap (λ z. z.current) same ∙ e)
      | inr k ↦
          let old : lookup j r.sessions ≡ some u =
            ground (arith, k, lookup-insert id j t r.sessions, found) in
          i.sessions_keep j u p old e
    ];
  }

  plain_message-Closed :
      (now : ℕ) (r : LineageRunner C V) (id type from : Name) (payload : Bytes)
      → ClosedRunner r
      → ClosedRunner (handle_plain_message sha256 now reads r id type from payload).0
  unfolding handle_plain_message
  plain_message-Closed now r id type from payload i = elim (Option-cases (lookup id r.sessions)) [
    | inl e ↦
        subst (λ o. ClosedRunner (lineage_message_in sha256 now reads r id type from payload o).0)
          (sym e) i
    | inr (t, e) ↦
        subst (λ o. ClosedRunner (lineage_message_in sha256 now reads r id type from payload o).0)
          (sym e)
          (put_back-Closed r id
            (lineage_message_to sha256 now reads r.signer r.built r.phase_count (seeing r.store t)
              type from payload)
            i
            (message_to-Sound sha256 now reads r.signer r.built i.built_keeps r.phase_count
              (seeing r.store t) type from payload
              (record { closed = i.closed; keeps = λ p. i.sessions_keep id t p e })))
  ]

  advance-Closed :
      (now : ℕ) (r : LineageRunner C V) (id target : Name)
      → ClosedRunner r
      → ClosedRunner (advance_lineage_session sha256 now reads r id target).0
  unfolding advance_lineage_session
  advance-Closed now r id target i = elim (Option-cases (lookup id r.sessions)) [
    | inl e ↦ subst (λ o. ClosedRunner (advance_session sha256 now reads r id target o).0) (sym e) i
    | inr (t, e) ↦
        subst (λ o. ClosedRunner (advance_session sha256 now reads r id target o).0) (sym e)
          (put_back-Closed r id
            (lineage_advance sha256 now reads r.signer r.built r.phase_count (seeing r.store t)
              target)
            i
            (advance-Sound sha256 now reads r.signer r.built i.built_keeps r.phase_count
              (seeing r.store t) target
              (record { closed = i.closed; keeps = λ p. i.sessions_keep id t p e })))
  ]

  fire-Closed :
      (r : LineageRunner C V) (kind : FailureKind) (id : Name) (node : DagNode)
      → ClosedRunner r
      → ClosedRunner (fire_failure_hook r (failure kind id node))
  unfolding fire_failure_hook
  fire-Closed r kind id node i = elim (Bool-cases r.has_hook) [
    | inl e ↦
        simp e (record {
          closed = i.closed;
          built_keeps = i.built_keeps;
          sessions_keep = i.sessions_keep;
        })
    | inr e ↦ simp e i
  ]

  checked-Closed :
      (now : ℕ) (r : LineageRunner C V) (id type from : Name) (payload : Bytes) (node : DagNode)
      (v : Option MismatchError) (m : Option NodeRef)
      → missing_parent r.store node.parents ≡ m
      → ClosedRunner r
      → ClosedRunner (checked_message sha256 now reads r id type from payload node v m).0
  checked-Closed now r id type from payload node (some e) m known i =
      fire-Closed r mismatch_confirmed id node i
  checked-Closed now r id type from payload node none (some p) known i =
      fire-Closed r mismatch_confirmed id node i
  checked-Closed now r id type from payload node none none known i =
      plain_message-Closed now (record r { store = kept r.store (append r.store node) }) id type
        from payload
        (record {
          closed =
              append-Closed r.store node i.closed
                (missing_parent-Stored r.store node.parents known);
          built_keeps = i.built_keeps;
          sessions_keep = i.sessions_keep;
        })

  frame-Closed :
      (now : ℕ) (r : LineageRunner C V) (id type from : Name) (payload : Bytes)
      (node : Option DagNode)
      → ClosedRunner r
      → ClosedRunner (handle_lineage_message sha256 now reads r id type from payload node).0
  unfolding handle_lineage_message
  frame-Closed now r id type from payload none i = i
  frame-Closed now r id type from payload (some node) i =
      checked-Closed now r id type from payload node (verify sha256 node payload r.verifiers)
        (missing_parent r.store node.parents) refl i

  deleted-Closed :
      (r : LineageRunner C V) (id : Name) (s : InMemoryStore)
      → ClosedRunner r
      → Closed s
      → ClosedRunner (record r { sessions = delete id r.sessions; store = s })
  deleted-Closed r id s i closed = record {
    closed = closed;
    built_keeps = i.built_keeps;
    sessions_keep = λ j u p found e.
        i.sessions_keep j u p (ground (arith, lookup-delete id j r.sessions, found)) e;
  }

  entered-Closed :
      (r : LineageRunner C V) (id : Name) (p : Phase (Shared C) V) (o : Shared C × Option Fault)
      → KeepsClosed p
      → ClosedRunner r
      → Closed o.0.1
      → ClosedRunner (entered_session r id p o).0
  entered-Closed r id p ((c, s), some e) keeps i closed = deleted-Closed r id s i closed
  entered-Closed r id p ((c, s), none) keeps i closed =
      let t : Tracker (Shared C) V = record {
        ctx = (c, s);
        state = r.built.initial;
        current = some p;
        entered = true;
      } in
      put_back-Closed r id (t, done c) i
        (record { closed = closed; keeps = λ q e. subst KeepsClosed (ground (arith, e)) keeps })

  begin-Closed :
      (r : LineageRunner C V) (id cohort : Name)
      → ClosedRunner r
      → ClosedRunner (begin_lineage_session new_context r id cohort).0
  unfolding begin_lineage_session
  begin-Closed r id cohort i = elim (Bool-cases (is_none id)) [
    | inl k ↦ simp k i
    | inr k ↦ elim (Option-cases (lookup id r.sessions)) [
      | inr (t, e) ↦ simp (k, e) i
      | inl e ↦ elim (Option-cases (lookup r.built.initial r.built.by_entry)) [
        | inl h ↦ simp (k, e, h) i
        | inr (p, h) ↦
            simp (k, e, h)
              (entered-Closed r id p (p.enter (new_context id cohort, r.store))
                (i.built_keeps r.built.initial p h) i
                ((i.built_keeps r.built.initial p h).on_enter (new_context id cohort, r.store)
                  i.closed))
      ]
    ]
  ]

  perform_call-Closed :
      (r : LineageRunner C V) (c : ℕ × LineageCall)
      → ClosedRunner r
      → ClosedRunner (perform_call sha256 reads new_context r c)
  unfolding perform_call report_false_lineage_claim
  perform_call-Closed r (now, begin id cohort) i = begin-Closed r id cohort i
  perform_call-Closed r (now, frame id type from payload node) i =
      frame-Closed now r id type from payload node i
  perform_call-Closed r (now, message id type from payload) i =
      plain_message-Closed now r id type from payload i
  perform_call-Closed r (now, advance_to id target) i = advance-Closed now r id target i
  perform_call-Closed r (now, end id) i = deleted-Closed r id r.store i i.closed
  perform_call-Closed r (now, false_claim id claim) i =
      fire-Closed r mismatch_false_claim id claim i

  -- Whatever calls are made on a runner with lineage, failed ones and forged frames included, every
  -- node of its store stays under its own hash with all its parents stored, where this holds at first
  -- and the hooks of the phases keep it.
  pub perform_calls-Closed :
      (r : LineageRunner C V) (cs : List (ℕ × LineageCall))
      → ClosedRunner r
      → ClosedRunner (perform_calls sha256 reads new_context r cs)
  perform_calls-Closed r [] i = i
  perform_calls-Closed r (c ∷ cs) i =
      perform_calls-Closed (perform_call sha256 reads new_context r c) cs
        (perform_call-Closed r c i)
