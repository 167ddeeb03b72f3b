-- ===== src/Transport/Loss.antt =====
-- Frames and connections that the hub of pkg/ares/transport/hub.go loses.
use ares_energy_demo.Prelude.{
  ℕ, ◌≡◌, ◌≢◌, refl, sym, ◌∙◌, ap, subst, false, List, [], ◌∷◌, ◌++◌, Option, none, some, nat_eq,
  nat_beq_iff, lookup, delete, lookup-insert, lookup-delete, All, arith, Bool-cases, inl, inr,
}
use ares_energy_demo.Auction.State.{Bytes}
use ares_energy_demo.Runner.Types.{Name, name_eq, name_beq_iff, is_none}
use ares_energy_demo.Transport.Frames.{
  Invalid, WsMessage, check_and_record_seq, validate_inbound_message,
}
use ares_energy_demo.Transport.Hub.{
  ConnId, Client, AuthMiddleware, Hub, Fate, not_open, invalid_frame, replay_drop, rate_drop,
  dispatched, upgraded, new_client, register, handle_ws, validate_token, check_origin,
  remove_client, close_conn, sequence_frame, after_validation, receive, read_frame, push_to,
  send_to, is_connected, is_some,
}
use ares_energy_demo.Transport.Traffic.{
  Dispatch, logged, Event, connects, frame, ends, sends, sends_session, sends_all, step, run,
}
use ares_energy_demo.Transport.Sequence.{Later, Increasing, check_and_record_seq-Checked}
use ares_energy_demo.Transport.Replay.{Guarded, run-Guarded}

-- The upgrade registers the connection.
handle_ws-upgraded :
    (auth : AuthMiddleware) (h : Hub) (origin p token : Name) (now : ℕ) (conn : ConnId)
    → (handle_ws auth h origin p token now).1 ≡ upgraded conn
    → ((handle_ws auth h origin p token now).0 ≡ register h p now) × (conn ≡ h.next_conn)
unfolding handle_ws
handle_ws-upgraded auth h origin p token now conn e = elim (Bool-cases (is_none p)) [
  | inl a ↦ absurd (ground (arith, a, e))
  | inr a ↦ elim (Bool-cases (validate_token auth p token)) [
    | inr b ↦ absurd (ground (arith, a, b, e))
    | inl b ↦ elim (Bool-cases (check_origin h.options origin)) [
      | inr c ↦ absurd (ground (arith, a, b, c, e))
      | inl c ↦ (simp (a, b, c) refl, ground (arith, a, b, c, e))
    ]
  ]
]

-- When a tab connects again before its old connection is noticed to be dead, the end of the old
-- connection removes the pseudonym from the hub: the new connection stays open and is not
-- connected any more, and what is sent to the pseudonym is dropped.
pub stale_close_disconnects :
    (auth : AuthMiddleware) (h : Hub) (origin p token : Name) (now : ℕ) (old new : ConnId)
    (c : Client) (stamp : Bytes) (m : WsMessage)
    → lookup old h.conns ≡ some c
    → c.pseudonym ≡ p
    → old ≢ h.next_conn
    → (handle_ws auth h origin p token now).1 ≡ upgraded new
    → let h' = close_conn (handle_ws auth h origin p token now).0 old in
      (lookup new h'.conns ≡ some (new_client h.options p now))
      × (is_connected h' p ≡ false)
      × (send_to h' stamp p m ≡ h')
unfolding close_conn remove_client is_connected send_to push_to register
stale_close_disconnects auth h origin p token now old new c stamp m open_ named apart e =
    let (made, fresh) = handle_ws-upgraded auth h origin p token now new e in
    let reg = register h p now in
    let kept : lookup old reg.conns ≡ some c = ground (
      arith,
      open_,
      apart,
      lookup-insert h.next_conn old (new_client h.options p now) h.conns,
      nat_beq_iff h.next_conn old,
    ) in
    let closed : close_conn (handle_ws auth h origin p token now).0 old
        ≡ record reg { conns = delete old reg.conns; clients = delete c.pseudonym reg.clients } =
      ap (λ z. close_conn z old) made ∙ ap (λ o. remove_client reg o old) kept in
    let gone : lookup p (delete c.pseudonym reg.clients) ≡ none =
      ground (arith, named, lookup-delete c.pseudonym p reg.clients, name_beq_iff c.pseudonym p) in
    subst
      (λ z.
        (lookup new z.conns ≡ some (new_client h.options p now))
        × (is_some (lookup p z.clients) ≡ false)
        × (push_to z (lookup p z.clients) (record m { timestamp = stamp }) ≡ z))
      (sym closed)
      (
        ground (
          arith,
          fresh,
          apart,
          lookup-delete old new reg.conns,
          nat_beq_iff old new,
          lookup-insert h.next_conn new (new_client h.options p now) h.conns,
          nat_beq_iff h.next_conn new,
        ),
        ap is_some gone,
        ap
            (λ o.
              push_to
                (record reg {
                  conns = delete old reg.conns;
                  clients = delete c.pseudonym reg.clients;
                })
                o (record m { timestamp = stamp }))
            gone,
      )

logged-append : (f : Fate) (l b : List Dispatch) → logged f (l ++ b) ≡ logged f l ++ b
logged-append not_open l b = refl
logged-append invalid_frame l b = refl
logged-append replay_drop l b = refl
logged-append rate_drop l b = refl
logged-append (dispatched p m) l b = refl

Increasing-last :
    (xs : List Dispatch) (d : Dispatch) → Increasing (xs ++ (d ∷ [])) → All (λ e. Later e d) xs
Increasing-last [] d i = tt
Increasing-last (x ∷ xs) d (a, i) = (last xs a, Increasing-last xs d i)
  where
    last : (ys : List Dispatch) → All (Later x) (ys ++ (d ∷ [])) → Later x d
    last [] (l, _) = l
    last (y ∷ ys) (_, l) = last ys l

module _ (one : ℕ) (auth : AuthMiddleware) where
  step-append :
      (h : Hub) (l b : List Dispatch) (e : Event)
      → step one auth (h, l ++ b) e ≡ ((step one auth (h, l) e).0, (step one auth (h, l) e).1 ++ b)
  unfolding step
  step-append h l b (frame conn m now) =
      ap (λ z. ((read_frame one h conn m now).0, z))
        (logged-append (read_frame one h conn m now).1 l b)
  step-append h l b (connects origin p token now) = refl
  step-append h l b (ends conn) = refl
  step-append h l b (sends stamp p m) = refl
  step-append h l b (sends_session stamp s ps m) = refl
  step-append h l b (sends_all stamp m) = refl

  run-append :
      (h : Hub) (l b : List Dispatch) (es : List Event)
      → (run one auth (h, l ++ b) es).1 ≡ (run one auth (h, l) es).1 ++ b
  run-append h l b [] = refl
  run-append h l b (e ∷ es) =
      ap (λ z. (run one auth z es).1) (step-append h l b e)
      ∙ run-append (step one auth (h, l) e).0 (step one auth (h, l) e).1 b es

  sequence_frame-dropped :
      (h : Hub) (conn : ConnId) (c : Client) (m : WsMessage) (now : ℕ)
      → (sequence_frame one h conn c m now).1 ≡ rate_drop
      → Guarded ((sequence_frame one h conn c m now).0, (c.pseudonym, m) ∷ [])
  sequence_frame-dropped h conn c m now e =
      let high' = (check_and_record_seq h.seq_high c.pseudonym m).0 in
      let (_, passed) = check_and_record_seq-Checked h.seq_high [] c.pseudonym m tt in
      elim (Bool-cases (check_and_record_seq h.seq_high c.pseudonym m).1) [
        | inl k ↦ simp k (((passed k).0, tt), (tt, tt))
        | inr k ↦ absurd (ground (arith, k, e))
      ]

  after_validation-dropped :
      (h : Hub) (conn : ConnId) (c : Client) (m : WsMessage) (now : ℕ) (o : Option Invalid)
      → (after_validation one h conn c m now o).1 ≡ rate_drop
      → Guarded ((after_validation one h conn c m now o).0, (c.pseudonym, m) ∷ [])
  after_validation-dropped h conn c m now (some i) e = absurd (ground (arith, e))
  after_validation-dropped h conn c m now none e = sequence_frame-dropped h conn c m now e

  -- A frame with a number that is dropped for the rate of its connection has used its number up: of
  -- the frames of its session, pseudonym and type that the hub passes on later, whatever happens,
  -- each has a greater number or none. So the client cannot send the same frame again.
  pub rate_dropped_lost :
      (h : Hub) (conn : ConnId) (c : Client) (m : WsMessage) (now : ℕ) (es : List Event)
      → lookup conn h.conns ≡ some c
      → (read_frame one h conn m now).1 ≡ rate_drop
      → All
          (λ d. Later d (c.pseudonym, m))
          (run one auth ((read_frame one h conn m now).0, []) es).1
  unfolding read_frame
  rate_dropped_lost h conn c m now es found e =
      let h' = (read_frame one h conn m now).0 in
      let here = ap (λ o. receive one h conn o m now) found in
      let guarded : Guarded (h', (c.pseudonym, m) ∷ []) =
        subst (λ z. Guarded (z.0, (c.pseudonym, m) ∷ [])) (sym here)
          (after_validation-dropped h conn c m now (validate_inbound_message m)
            (sym (ap (λ z. z.1) here) ∙ e)) in
      Increasing-last (run one auth (h', []) es).1 (c.pseudonym, m)
        (subst Increasing (run-append h' [] ((c.pseudonym, m) ∷ []) es)
          (run-Guarded one auth (h', (c.pseudonym, m) ∷ []) es guarded).1)
