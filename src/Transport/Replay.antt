-- ===== src/Transport/Replay.antt =====
-- The replay protection of pkg/ares/transport/hub.go.
use ares_energy_demo.Prelude.{
  nat_eq, ℕ, ◌≡◌, refl, sym, ◌∙◌, subst, List, [], ◌∷◌, Option, none, some, int_eq, lookup, All,
  arith, Bool-cases, inl, inr,
}
use ares_energy_demo.Runner.Types.{Name, name_eq}
use ares_energy_demo.Transport.Frames.{
  Invalid, WsMessage, check_and_record_seq, validate_inbound_message,
}
use ares_energy_demo.Transport.Limiter.{allow}
use ares_energy_demo.Transport.Hub.{
  ConnId, Client, AuthMiddleware, Hub, limit_frame, sequence_frame, after_validation, receive,
  read_frame, new_hub, HubOptions, handle_ws, remove_client, close_conn, deliver, push_to, send_to,
  send_each, broadcast_to_session, broadcast, pseudonyms_of,
}
use ares_energy_demo.Transport.Traffic.{
  Dispatch, logged, Event, connects, frame, ends, sends, sends_session, sends_all, step, run,
}
use ares_energy_demo.Transport.Sequence.{Later, Increasing, Recorded, check_and_record_seq-Checked}

-- The frames that were passed on are recorded and their numbers increase.
abbrev pub Guarded : Hub × List Dispatch → Type 0
Guarded (h, log) = All (Recorded h.seq_high) log × Increasing log

module _ (one : ℕ) where
  limit_frame-Guarded :
      (h : Hub) (conn : ConnId) (c : Client) (m : WsMessage) (now : ℕ) (log : List Dispatch)
      → Guarded (h, log)
      → Recorded h.seq_high (c.pseudonym, m)
      → All (Later (c.pseudonym, m)) log
      → let (h', fate) = limit_frame one h conn c m now in Guarded (h', logged fate log)
  limit_frame-Guarded h conn c m now log (r, i) rm later =
      elim (Bool-cases (allow one c.limiter now).1) [
        | inl e ↦ simp e ((rm, r), (later, i))
        | inr e ↦ simp e (r, i)
      ]

  sequence_frame-Guarded :
      (h : Hub) (conn : ConnId) (c : Client) (m : WsMessage) (now : ℕ) (log : List Dispatch)
      → Guarded (h, log)
      → let (h', fate) = sequence_frame one h conn c m now in Guarded (h', logged fate log)
  sequence_frame-Guarded h conn c m now log (r, i) =
      let high' = (check_and_record_seq h.seq_high c.pseudonym m).0 in
      let (kept, passed) = check_and_record_seq-Checked h.seq_high log c.pseudonym m r in
      elim (Bool-cases (check_and_record_seq h.seq_high c.pseudonym m).1) [
        | inl e ↦ simp e (
            limit_frame-Guarded (record h { seq_high = high' }) conn c m now log (kept, i)
              (passed e).0 (passed e).1)
        | inr e ↦ simp e (kept, i)
      ]

  after_validation-Guarded :
      (h : Hub) (conn : ConnId) (c : Client) (m : WsMessage) (now : ℕ) (o : Option Invalid)
      (log : List Dispatch)
      → Guarded (h, log)
      → let (h', fate) = after_validation one h conn c m now o in Guarded (h', logged fate log)
  after_validation-Guarded h conn c m now (some i) log g = g
  after_validation-Guarded h conn c m now none log g = sequence_frame-Guarded h conn c m now log g

  receive-Guarded :
      (h : Hub) (conn : ConnId) (o : Option Client) (m : WsMessage) (now : ℕ) (log : List Dispatch)
      → Guarded (h, log)
      → let (h', fate) = receive one h conn o m now in Guarded (h', logged fate log)
  receive-Guarded h conn none m now log g = g
  receive-Guarded h conn (some c) m now log g =
      after_validation-Guarded h conn c m now (validate_inbound_message m) log g

deliver-seq_high :
    (h : Hub) (conn : ConnId) (o : Option Client) (m : WsMessage)
    → (deliver h conn o m).seq_high ≡ h.seq_high
deliver-seq_high h conn none m = refl
deliver-seq_high h conn (some c) m = refl

push_to-seq_high :
    (h : Hub) (o : Option ConnId) (m : WsMessage) → (push_to h o m).seq_high ≡ h.seq_high
unfolding push_to
push_to-seq_high h none m = refl
push_to-seq_high h (some conn) m = deliver-seq_high h conn (lookup conn h.conns) m

send_each-seq_high :
    (h : Hub) (ps : List Name) (m : WsMessage) → (send_each h ps m).seq_high ≡ h.seq_high
unfolding send_each
send_each-seq_high h [] m = refl
send_each-seq_high h (p ∷ ps) m =
    send_each-seq_high (push_to h (lookup p h.clients) m) ps m
    ∙ push_to-seq_high h (lookup p h.clients) m

handle_ws-seq_high :
    (auth : AuthMiddleware) (h : Hub) (origin p token : Name) (now : ℕ)
    → (handle_ws auth h origin p token now).0.seq_high ≡ h.seq_high
unfolding handle_ws
handle_ws-seq_high auth h origin p token now = ground arith

remove_client-seq_high :
    (h : Hub) (o : Option Client) (conn : ConnId) → (remove_client h o conn).seq_high ≡ h.seq_high
unfolding remove_client
remove_client-seq_high h none conn = refl
remove_client-seq_high h (some c) conn = refl

module _ (one : ℕ) (auth : AuthMiddleware) where
  step-Guarded :
      (h : Hub) (log : List Dispatch) (e : Event)
      → Guarded (h, log)
      → Guarded (step one auth (h, log) e)
  unfolding step send_to broadcast_to_session broadcast close_conn read_frame
  step-Guarded h log (frame conn m now) g =
      receive-Guarded one h conn (lookup conn h.conns) m now log g
  step-Guarded h log (connects origin p token now) (r, i) =
      (subst (λ t. All (Recorded t) log) (sym (handle_ws-seq_high auth h origin p token now)) r, i)
  step-Guarded h log (ends conn) (r, i) = (
    subst (λ t. All (Recorded t) log) (sym (remove_client-seq_high h (lookup conn h.conns) conn)) r,
    i,
  )
  step-Guarded h log (sends stamp p m) (r, i) = (
    subst (λ t. All (Recorded t) log)
        (sym (push_to-seq_high h (lookup p h.clients) (record m { timestamp = stamp }))) r,
    i,
  )
  step-Guarded h log (sends_session stamp s ps m) (r, i) = (
    subst (λ t. All (Recorded t) log)
        (sym (send_each-seq_high h ps (record m { timestamp = stamp; session_id = s }))) r,
    i,
  )
  step-Guarded h log (sends_all stamp m) (r, i) = (
    subst (λ t. All (Recorded t) log)
        (sym (send_each-seq_high h (pseudonyms_of h.clients) (record m { timestamp = stamp }))) r,
    i,
  )

  pub run-Guarded :
      (s : Hub × List Dispatch) (fs : List Event) → Guarded s → Guarded (run one auth s fs)
  run-Guarded s [] g = g
  run-Guarded (h, log) (f ∷ fs) g =
      run-Guarded (step one auth (h, log) f) fs (step-Guarded h log f g)

  -- Whatever connects, arrives, ends and is sent: of the frames that the hub has passed on, from
  -- whatever connection, those of one session, pseudonym and type that carry a number have
  -- strictly increasing numbers. So no numbered frame is passed on twice.
  pub run-Increasing :
      (o : HubOptions) (es : List Event) → Increasing (run one auth (new_hub o, []) es).1
  run-Increasing o es = (run-Guarded (new_hub o, []) es (tt, tt)).1
