-- ===== src/Transport/Hub.antt =====
-- The WebSocket hub of pkg/ares/transport/hub.go and its authentication (auth.go). A connection is a
-- number; what a goroutine of a connection holds by pointer is looked up under it, and the map
-- `clients` gives the connection that a pseudonym is registered with.
use ares_energy_demo.Prelude.{
  ℕ, suc, ℤ, Bool, true, false, ◌&&◌, not, List, [], ◌∷◌, ◌++◌, Option, none, some, ltb,
  if◌then◌else◌, ◌==◌, nat_eq, lookup, insert, delete, length, contains,
}
use ares_energy_demo.Auction.State.{Bytes}
use ares_energy_demo.Runner.Types.{Name, name_eq, is_none}
use ares_energy_demo.Transport.Frames.{
  WsMessage, Invalid, validate_inbound_message, check_and_record_seq,
}
use ares_energy_demo.Transport.Limiter.{RateLimiter, new_rate_limiter, allow}

abbrev pub ConnId : Type 0
ConnId = ℕ

abbrev pub send_buffer_size : ℕ
send_buffer_size = 256

-- `outbound` is the Send channel.
pub record Client : Type 0 where
  pub pseudonym : Name
  pub outbound : List WsMessage
  pub limiter : Option RateLimiter

pub record HubOptions : Type 0 where
  pub allowed_origins : List Name
  pub allow_any_origin : Bool
  pub inbound_rate : ℕ
  pub inbound_burst : ℕ

-- `conns` are the open connections, `clients` is the hub's map.
pub record Hub : Type 0 where
  pub options : HubOptions
  pub conns : List (ConnId × Client)
  pub clients : List (Name × ConnId)
  pub next_conn : ConnId
  pub seq_high : List (Name × ℤ)

unfoldable pub new_hub : HubOptions → Hub
new_hub o = record { options = o; conns = []; clients = []; next_conn = 0; seq_high = [] }

abbrev pub is_empty : List Name → Bool
is_empty [] = true
is_empty (_ ∷ _) = false

-- CheckOrigin, of the Origin header.
unfoldable pub check_origin : HubOptions → Name → Bool
check_origin o origin =
    if is_none origin
    then true
    else if o.allow_any_origin && is_empty o.allowed_origins
    then true
    else contains o.allowed_origins origin

-- AuthMiddleware; `hmac` is the hex digest of HMAC-SHA256 by secret and message.
pub record AuthMiddleware : Type 0 where
  pub secret : Bytes
  pub allow_dev_bypass : Bool
  pub hmac : Bytes → Bytes → Name

unfoldable pub generate_token : AuthMiddleware → Name → Name
generate_token m pseudonym = m.hmac m.secret pseudonym

unfoldable pub validate_token : AuthMiddleware → Name → Name → Bool
unfolding generate_token
validate_token m pseudonym token =
    if is_none m.secret then m.allow_dev_bypass else generate_token m pseudonym == token

-- How HandleWS answers.
pub data Answer : Type 0 where
  missing_pseudonym invalid_auth upgrade_failed : Answer
  upgraded : ConnId → Answer

abbrev pub new_client : HubOptions → Name → ℕ → Client
new_client o pseudonym now = record {
  pseudonym = pseudonym;
  outbound = [];
  limiter = new_rate_limiter o.inbound_rate o.inbound_burst now;
}

-- A connection is registered under its pseudonym, in the place of any other of that pseudonym.
unfoldable pub register : Hub → Name → ℕ → Hub
register h pseudonym now = record h {
  conns = insert h.next_conn (new_client h.options pseudonym now) h.conns;
  clients = insert pseudonym h.next_conn h.clients;
  next_conn = suc h.next_conn;
}

unfoldable pub handle_ws : AuthMiddleware → Hub → Name → Name → Name → ℕ → Hub × Answer
unfolding register
handle_ws auth h origin pseudonym token now =
    if is_none pseudonym
    then (h, missing_pseudonym)
    else if not (validate_token auth pseudonym token)
    then (h, invalid_auth)
    else if not (check_origin h.options origin)
    then (h, upgrade_failed)
    else (register h pseudonym now, upgraded h.next_conn)

-- readPump's deferred function: the pseudonym is removed, whatever connection it is registered with.
unfoldable pub remove_client : Hub → Option Client → ConnId → Hub
remove_client h none conn = h
remove_client h (some c) conn = record h {
  conns = delete conn h.conns;
  clients = delete c.pseudonym h.clients;
}

unfoldable pub close_conn : Hub → ConnId → Hub
unfolding remove_client
close_conn h conn = remove_client h (lookup conn h.conns) conn

-- What becomes of a frame that was parsed.
pub data Fate : Type 0 where
  not_open invalid_frame replay_drop rate_drop : Fate
  dispatched : Name → WsMessage → Fate

module _ (one : ℕ) where
  abbrev pub limit_frame : Hub → ConnId → Client → WsMessage → ℕ → Hub × Fate
  limit_frame h conn c m now =
      let (limiter, admitted) = allow one c.limiter now in
      let h' = record h { conns = insert conn (record c { limiter = limiter }) h.conns } in
      (h', (if admitted then dispatched c.pseudonym m else rate_drop))

  abbrev pub sequence_frame : Hub → ConnId → Client → WsMessage → ℕ → Hub × Fate
  sequence_frame h conn c m now =
      let (high, accepted) = check_and_record_seq h.seq_high c.pseudonym m in
      let h' = record h { seq_high = high } in
      if not accepted then (h', replay_drop) else limit_frame h' conn c m now

  abbrev pub after_validation : Hub → ConnId → Client → WsMessage → ℕ → Option Invalid → Hub × Fate
  after_validation h conn c m now (some _) = (h, invalid_frame)
  after_validation h conn c m now none = sequence_frame h conn c m now

  abbrev pub receive : Hub → ConnId → Option Client → WsMessage → ℕ → Hub × Fate
  receive h conn none m now = (h, not_open)
  receive h conn (some c) m now = after_validation h conn c m now (validate_inbound_message m)

  -- One round of readPump's loop, for a frame that is JSON.
  unfoldable pub read_frame : Hub → ConnId → WsMessage → ℕ → Hub × Fate
  read_frame h conn m now = receive h conn (lookup conn h.conns) m now

-- A full queue drops the message.
abbrev pub enqueue : Client → WsMessage → Client
enqueue c m =
    if ltb (length c.outbound) send_buffer_size
    then record c { outbound = c.outbound ++ (m ∷ []) }
    else c

abbrev pub deliver : Hub → ConnId → Option Client → WsMessage → Hub
deliver h conn none m = h
deliver h conn (some c) m = record h { conns = insert conn (enqueue c m) h.conns }

unfoldable pub push_to : Hub → Option ConnId → WsMessage → Hub
push_to h none m = h
push_to h (some conn) m = deliver h conn (lookup conn h.conns) m

-- `stamp` is the clock's formatted time.
unfoldable pub send_to : Hub → Bytes → Name → WsMessage → Hub
unfolding push_to
send_to h stamp pseudonym m =
    push_to h (lookup pseudonym h.clients) (record m { timestamp = stamp })

unfoldable pub send_each : Hub → List Name → WsMessage → Hub
unfolding push_to
send_each h [] m = h
send_each h (p ∷ ps) m = send_each (push_to h (lookup p h.clients) m) ps m

unfoldable pub broadcast_to_session : Hub → Bytes → Name → List Name → WsMessage → Hub
unfolding send_each
broadcast_to_session h stamp session pseudonyms m =
    send_each h pseudonyms (record m { timestamp = stamp; session_id = session })

abbrev pub pseudonyms_of : List (Name × ConnId) → List Name
pseudonyms_of [] = []
pseudonyms_of ((p, _) ∷ cs) = p ∷ pseudonyms_of cs

unfoldable pub broadcast : Hub → Bytes → WsMessage → Hub
unfolding send_each
broadcast h stamp m = send_each h (pseudonyms_of h.clients) (record m { timestamp = stamp })

abbrev pub is_some : Option ConnId → Bool
is_some none = false
is_some (some _) = true

unfoldable pub is_connected : Hub → Name → Bool
is_connected h pseudonym = is_some (lookup pseudonym h.clients)

unfoldable pub connected_count : Hub → ℕ
connected_count h = length h.clients
