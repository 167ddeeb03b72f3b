-- ===== src/Service/Checks.antt =====
-- What the service of pkg/ares/transport/service.go lets through.
use ares_energy_demo.Prelude.{
  nat_eq, ℕ, ◌≡◌, ◌≢◌, refl, sym, ◌∙◌, ap, subst, true, false, [], ◌∷◌, Option, none, some, lookup,
  arith, Bool-cases, inl, inr, ◌⊎◌,
}
use ares_energy_demo.Auction.State.{Bytes}
use ares_energy_demo.Runner.Types.{Name, name_eq, name_beq_iff, is_none}
use ares_energy_demo.Lineage.Node.{NodeRef, DagNode}
use ares_energy_demo.Dispatch.Outputs.{Reads}
use ares_energy_demo.Dispatch.Messages.{LineageRunner, LineageOutcome}
use ares_energy_demo.Dispatch.Guard.{Accepts, handle_lineage_message-Guarded}
use ares_energy_demo.Transport.Frames.{
  WsMessage, Invalid, validate_inbound_message, check_and_record_seq,
}
use ares_energy_demo.Transport.Limiter.{allow}
use ares_energy_demo.Transport.Hub.{
  ConnId, Client, Hub, Fate, AuthMiddleware, not_open, invalid_frame, replay_drop, rate_drop,
  dispatched, generate_token, validate_token, handle_ws, upgraded, limit_frame, sequence_frame,
  after_validation, receive, read_frame,
}
use ares_energy_demo.Service.Assembly.{
  Config, Service, service, new_service, with_runner, assemble, route, on_message, served,
  service_frame,
}

-- What the hub passes on is the frame that came.
module _ (one : ℕ) where
  limited_same :
      (h : Hub) (conn : ConnId) (c : Client) (m : WsMessage) (now : ℕ) (p : Name) (m' : WsMessage)
      → (limit_frame one h conn c m now).1 ≡ dispatched p m'
      → m ≡ m'
  limited_same h conn c m now p m' e = elim (Bool-cases (allow one c.limiter now).1) [
    | inl k ↦ ground (arith, k, e)
    | inr k ↦ absurd (ground (arith, k, e))
  ]

  sequenced_same :
      (h : Hub) (conn : ConnId) (c : Client) (m : WsMessage) (now : ℕ) (p : Name) (m' : WsMessage)
      → (sequence_frame one h conn c m now).1 ≡ dispatched p m'
      → m ≡ m'
  sequenced_same h conn c m now p m' e =
      let high = check_and_record_seq h.seq_high c.pseudonym m in
      elim (Bool-cases high.1) [
        | inl k ↦
            limited_same (record h { seq_high = high.0 }) conn c m now p m' (ground (arith, k, e))
        | inr k ↦ absurd (ground (arith, k, e))
      ]

  validated_same :
      (h : Hub) (conn : ConnId) (c : Client) (m : WsMessage) (now : ℕ) (p : Name) (m' : WsMessage)
      (o : Option Invalid)
      → (after_validation one h conn c m now o).1 ≡ dispatched p m'
      → m ≡ m'
  validated_same h conn c m now p m' none e = sequenced_same h conn c m now p m' e
  validated_same h conn c m now p m' (some i) e = absurd (ground (arith, e))

  received_same :
      (h : Hub) (conn : ConnId) (o : Option Client) (m : WsMessage) (now : ℕ) (p : Name)
      (m' : WsMessage)
      → (receive one h conn o m now).1 ≡ dispatched p m'
      → m ≡ m'
  received_same h conn none m now p m' e = absurd (ground (arith, e))
  received_same h conn (some c) m now p m' e =
      validated_same h conn c m now p m' (validate_inbound_message m) e

module _ {C V : Type 0} (sha256 : Bytes → NodeRef) (now : ℕ) (reads : Reads C) where
  -- Nothing of the sessions and of the store has changed.
  abbrev pub Untouched : LineageRunner C V → LineageRunner C V → Type 0
  Untouched r r' = (r'.sessions ≡ r.sessions) × (r'.store ≡ r.store)

  -- The frame has no node, or one that the runner accepts.
  abbrev pub Cleared : LineageRunner C V → WsMessage → Type 0
  Cleared r m =
      (m.lineage ≡ none)
      ⊎ ((node : DagNode) × (m.lineage ≡ some node) × Accepts sha256 now reads r node m.payload)

  module _ (describe : LineageOutcome → Name) where
    route_lem :
        (r : LineageRunner C V) (from : Name) (m : WsMessage) (o : Option DagNode)
        → m.lineage ≡ o
        → Untouched r (route sha256 reads describe now r from m o).0 ⊎ Cleared r m
    route_lem r from m none e = inr (inl e)
    route_lem r from m (some node) e =
        elim (handle_lineage_message-Guarded sha256 now reads r m.session_id m.type from m.payload
          node) [
            | inl g ↦ inr (inr (node, e, g.0))
            | inr g ↦ inl (ap (λ q. q.sessions) g.1, ap (λ q. q.store) g.1)
          ]

    on_message_lem :
        (s : Service C V) (from : Name) (m : WsMessage)
        → Untouched s.runner (on_message sha256 reads describe now s from m).runner
          ⊎ Cleared s.runner m
    unfolding on_message
    on_message_lem s from m = elim (Bool-cases (is_none m.session_id)) [
      | inl e ↦ simp e (inl (refl, refl))
      | inr e ↦ simp e (route_lem s.runner from m m.lineage refl)
    ]

    served_lem :
        (s : Service C V) (m : WsMessage) (fate : Fate)
        → ((p : Name) (m' : WsMessage) → fate ≡ dispatched p m' → m ≡ m')
        → Untouched s.runner (served sha256 reads describe now s fate).runner ⊎ Cleared s.runner m
    served_lem s m (dispatched p m') same =
        subst
          (λ f.
            Untouched s.runner (on_message sha256 reads describe now s p m').runner
            ⊎ Cleared s.runner f)
          (sym (same p m' refl)) (on_message_lem s p m')
    served_lem s m not_open same = inl (refl, refl)
    served_lem s m invalid_frame same = inl (refl, refl)
    served_lem s m replay_drop same = inl (refl, refl)
    served_lem s m rate_drop same = inl (refl, refl)

    -- Only a frame without a node, or with one that the runner accepts for its payload, changes a session
    -- or the lineage store, whatever connection it comes from.
    pub service_frame-Cleared :
        (one : ℕ) (s : Service C V) (conn : ConnId) (m : WsMessage)
        → Untouched s.runner (service_frame sha256 reads describe one now s conn m).runner
          ⊎ Cleared s.runner m
    unfolding service_frame read_frame
    service_frame-Cleared one s conn m =
        let passed_on = read_frame one s.hub conn m now in
        served_lem (record s { hub = passed_on.0 }) m passed_on.1
          (λ p m' e. received_same one s.hub conn (lookup conn s.hub.conns) m now p m' e)

valid_token :
    (auth : AuthMiddleware) (pseudonym token : Name)
    → is_none auth.secret ≡ false
    → validate_token auth pseudonym token ≡ true
    → generate_token auth pseudonym ≡ token
unfolding validate_token
valid_token auth pseudonym token secret e =
    (name_beq_iff (generate_token auth pseudonym) token).0 (ground (arith, secret, e))

upgraded_valid :
    (auth : AuthMiddleware) (h : Hub) (origin pseudonym token : Name) (now : ℕ) (conn : ConnId)
    → (handle_ws auth h origin pseudonym token now).1 ≡ upgraded conn
    → validate_token auth pseudonym token ≡ true
unfolding handle_ws
upgraded_valid auth h origin pseudonym token now conn e = elim (Bool-cases (is_none pseudonym)) [
  | inl k ↦ absurd (ground (arith, k, e))
  | inr k ↦ elim (Bool-cases (validate_token auth pseudonym token)) [
    | inl l ↦ l
    | inr l ↦ absurd (ground (arith, k, l, e))
  ]
]

not_empty : (b : Bytes) → is_none b ≡ false → b ≢ []
not_empty [] h e = ground (arith, h)
not_empty (x ∷ b) h e = ground (arith, e)

module _ {C V : Type 0} (cfg : Config C V) (s : Service C V) where
  made_lem :
      (o : Option (LineageRunner C V))
      → with_runner cfg o ≡ service s
      → cfg.production ≡ true
      → (s.auth.allow_dev_bypass ≡ false) × (is_none s.auth.secret ≡ false)
  made_lem none e p = absurd (ground (arith, e))
  made_lem (some r) e p = elim (Bool-cases cfg.allow_dev_bypass) [
    | inl k ↦ absurd (ground (arith, e, p, k))
    | inr k ↦ elim (Bool-cases (is_none cfg.secret)) [
      | inl l ↦ absurd (ground (arith, e, k, l))
      | inr l ↦
          let same : assemble cfg r ≡ s = ground (arith, e, p, k, l) in
          (
            ap (λ (z : Service C V). z.auth.allow_dev_bypass) (sym same) ∙ k,
            ap (λ (z : Service C V). is_none z.auth.secret) (sym same) ∙ l,
          )
    ]
  ]

  -- A service that was made in production upgrades a connection only for the token that belongs to its
  -- pseudonym under the service's secret, and the secret is not empty.
  pub production_needs_token :
      (h : Hub) (origin pseudonym token : Name) (now : ℕ) (conn : ConnId)
      → new_service cfg ≡ service s
      → cfg.production ≡ true
      → (handle_ws s.auth h origin pseudonym token now).1 ≡ upgraded conn
      → (s.auth.secret ≢ []) × (generate_token s.auth pseudonym ≡ token)
  unfolding new_service
  production_needs_token h origin pseudonym token now conn made prod up =
      let facts : (s.auth.allow_dev_bypass ≡ false) × (is_none s.auth.secret ≡ false) =
        elim (Bool-cases (is_none cfg.addr)) [
          | inl k ↦ absurd (ground (arith, k, made))
          | inr k ↦ made_lem cfg.runner (ground (arith, k, made)) prod
        ] in
      (
        not_empty s.auth.secret facts.1,
        valid_token s.auth pseudonym token facts.1
            (upgraded_valid s.auth h origin pseudonym token now conn up),
      )
