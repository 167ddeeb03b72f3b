-- ===== src/Tests/Network.antt =====
-- The hub, its limits and its logs at concrete inputs (pkg/ares/transport).
use ares_energy_demo.Prelude.{
  ◌<◌, ◌≢◌, ◌⊎◌, inl, inr, ℕ, ◌+◌, ◌-◌, ◌*◌, ◌≤◌, ◌≡◌, refl, pos, true, false, List, [], ◌∷◌, map,
  none, some, lookup, insert, All, arith, nat_eq,
}
use ares_energy_demo.Prelude.Recent.{keep_last}
use ares_energy_demo.Auction.State.{Bytes}
use ares_energy_demo.Transport.Frames.{
  WsMessage, validate_inbound_message, seq_key, check_and_record_seq,
}
use ares_energy_demo.Transport.Limiter.{RateLimiter, new_rate_limiter, refill, take_token, allow}
use ares_energy_demo.Transport.Hub.{
  Client, HubOptions, Hub, new_hub, check_origin, AuthMiddleware, validate_token, new_client,
  register, handle_ws, close_conn, read_frame, send_to, is_connected, upgraded, rate_drop,
}
use ares_energy_demo.Transport.Traffic.{Event, run, connects, frame}
use ares_energy_demo.Transport.LogStream.{write_sse, trim_right, nonempty, new_log_stream, buffered}
use ares_energy_demo.Transport.Artifacts.{
  ArtifactStore, new_artifact_store_with_ttl, put_content, get_content, content,
}
use ares_energy_demo.Transport.Loss.{stale_close_disconnects, rate_dropped_lost}
use ares_energy_demo.Transport.Sequence.{Increasing, Later}
use ares_energy_demo.Transport.Replay.{run-Increasing}
use ares_energy_demo.Transport.Budget.{admitted-le-budget, admitted, after}
use ares_energy_demo.Transport.Events.{
  events-record_all, SessionEvent, new_session_event_ring, events, record_all, of_session,
}
use ares_energy_demo.Transport.Sse.{sse_events, write_sse_event}
use ares_energy_demo.Transport.LogRing.{buffered-writes, writes}
use ares_energy_demo.Transport.Contents.{get_content-put_content, put_all}

abbrev auth : AuthMiddleware
auth = record { secret = []; allow_dev_bypass = true; hmac = λ s m. m }

abbrev options : HubOptions
options = record {
  allowed_origins = [];
  allow_any_origin = false;
  inbound_rate = 1;
  inbound_burst = 10;
}

-- A frame of type "m" in the session "s".
abbrev numbered : ℕ → WsMessage
numbered n = record {
  version = [];
  type = 109 ∷ [];
  session_id = 115 ∷ [];
  seq = pos n;
  payload = [];
  timestamp = [];
  lineage = none;
}

-- The pseudonym "p" connects, and sends two frames and the first of them again.
abbrev happenings : List Event
happenings =
    connects [] (112 ∷ []) [] 0
    ∷ frame 0 (numbered 1) 5
    ∷ frame 0 (numbered 2) 9
    ∷ frame 0 (numbered 1) 9
    ∷ []

run-Increasing_example : Increasing (run 10 auth (new_hub options, []) happenings).1
run-Increasing_example = run-Increasing 10 auth options happenings

abbrev limiter : RateLimiter
limiter = record { capacity = 20; refill_rate = 1; tokens = 20; last_tick = 0 }

limiter-made : new_rate_limiter 1 20 0 ≡ some limiter
unfolding new_rate_limiter
limiter-made = refl

admitted-le-budget_example :
    admitted 10 (after 10 (some limiter) (0 ∷ 1 ∷ 2 ∷ [])) (5 ∷ 15 ∷ []) * 10 ≤ 20 + (15 - 4) * 1
admitted-le-budget_example =
    admitted-le-budget 10 1 20 0 4 15 (0 ∷ 1 ∷ 2 ∷ []) (5 ∷ 15 ∷ []) limiter limiter-made
      (omega arith) (omega arith) (omega arith, (omega arith, (omega arith, tt)))
      ((omega arith, omega arith), ((omega arith, omega arith), tt))

-- The hub after the pseudonym "p" has connected once.
abbrev client : Client
client = new_client options (112 ∷ []) 0

abbrev joined : Hub
joined = record {
  options = options;
  conns = (0, client) ∷ [];
  clients = (112 ∷ [], 0) ∷ [];
  next_conn = 1;
  seq_high = [];
}

client-found : lookup 0 joined.conns ≡ some client
unfolding lookup
client-found = refl

joins_again : (handle_ws auth joined [] (112 ∷ []) [] 7).1 ≡ upgraded 1
unfolding handle_ws validate_token check_origin register
joins_again = refl

stale_close_disconnects_example :
    let h' = close_conn (handle_ws auth joined [] (112 ∷ []) [] 7).0 0 in
    (lookup 1 h'.conns ≡ some (new_client options (112 ∷ []) 7))
    × (is_connected h' (112 ∷ []) ≡ false)
    × (send_to h' [] (112 ∷ []) (numbered 3) ≡ h')
stale_close_disconnects_example =
    stale_close_disconnects auth joined [] (112 ∷ []) [] 7 0 1 client [] (numbered 3) client-found
      refl (λ e. absurd (omega (arith, e))) joins_again

-- The same with an empty bucket.
abbrev drained : Client
drained = record {
  pseudonym = 112 ∷ [];
  outbound = [];
  limiter = some (record { capacity = 10; refill_rate = 1; tokens = 0; last_tick = 0 });
}

abbrev crowded : Hub
crowded = record joined { conns = (0, drained) ∷ [] }

drained-found : lookup 0 crowded.conns ≡ some drained
unfolding lookup
drained-found = refl

frame-dropped : (read_frame 10 crowded 0 (numbered 1) 5).1 ≡ rate_drop
unfolding read_frame lookup insert validate_inbound_message check_and_record_seq seq_key allow
    refill take_token
frame-dropped = refl

rate_dropped_lost_example :
    All
      (λ d. Later d (112 ∷ [], numbered 1))
      (run 10 auth
        ((read_frame 10 crowded 0 (numbered 1) 5).0, [])
        (frame 0 (numbered 1) 50 ∷ [])).1
rate_dropped_lost_example =
    rate_dropped_lost 10 auth crowded 0 drained (numbered 1) 5 (frame 0 (numbered 1) 50 ∷ [])
      drained-found frame-dropped

abbrev occurred : ℕ → SessionEvent
occurred n = record {
  time = n;
  session_id = 115 ∷ [];
  type = 109 ∷ [];
  from = 112 ∷ [];
  error = [];
}

abbrev occurrences : List SessionEvent
occurrences = occurred 1 ∷ occurred 2 ∷ occurred 3 ∷ []

events-record_all_example :
    let r = new_session_event_ring 2 in
    events (record_all r occurrences) (115 ∷ [])
    ≡ keep_last r.limit (of_session (115 ∷ []) occurrences)
events-record_all_example = events-record_all 2 occurrences (115 ∷ [])

abbrev lines : List Bytes
lines = (65 ∷ 10 ∷ []) ∷ (66 ∷ 10 ∷ []) ∷ (10 ∷ []) ∷ (67 ∷ []) ∷ []

buffered-writes_example :
    buffered (writes 3 (new_log_stream 3) lines)
    ≡ nonempty (keep_last 3 (map (trim_right 10) lines))
buffered-writes_example = buffered-writes 3 (omega arith) lines

abbrev artifacts : ArtifactStore
artifacts = new_artifact_store_with_ttl 100

soon : 60 ≤ 5 + artifacts.ttl
unfolding new_artifact_store_with_ttl
soon = omega arith

get_content-put_content_example :
    get_content
      (λ b. b)
      (put_all
        (λ b. b)
        (put_content (λ b. b) artifacts 5 (1 ∷ 2 ∷ [])).0
        ((7, 3 ∷ []) ∷ (9, 1 ∷ 2 ∷ []) ∷ []))
      60
      (put_content (λ b. b) artifacts 5 (1 ∷ 2 ∷ [])).1
    ≡ content (1 ∷ 2 ∷ [])
get_content-put_content_example =
    get_content-put_content (λ b. b) artifacts 5 60 (1 ∷ 2 ∷ [])
      ((7, 3 ∷ []) ∷ (9, 1 ∷ 2 ∷ []) ∷ []) soon (omega arith, (λ e. e), (omega arith, (λ e. e), tt))

thirteen_not : (x : ℕ) → (x < 13) ⊎ (13 < x) → x ≢ 13
thirteen_not x h e = ground (arith, h, e)

abbrev two_lines : Bytes
two_lines = 65 ∷ 10 ∷ 100 ∷ 97 ∷ 116 ∷ 97 ∷ 58 ∷ 32 ∷ 66 ∷ []

write_sse_event_example : sse_events (write_sse two_lines) ≡ two_lines ∷ []
write_sse_event_example = write_sse_event two_lines (
  thirteen_not 65 (inr (omega arith)),
  (
    thirteen_not 10 (inl (omega arith)),
    (
      thirteen_not 100 (inr (omega arith)),
      (
        thirteen_not 97 (inr (omega arith)),
        (
          thirteen_not 116 (inr (omega arith)),
          (
            thirteen_not 97 (inr (omega arith)),
            (
              thirteen_not 58 (inr (omega arith)),
              (thirteen_not 32 (inr (omega arith)), (thirteen_not 66 (inr (omega arith)), tt)),
            ),
          ),
        ),
      ),
    ),
  ),
)

-- Carriage returns in a line forge a second event.
carriage_returns_forge :
    sse_events (write_sse (65 ∷ 13 ∷ 13 ∷ 100 ∷ 97 ∷ 116 ∷ 97 ∷ 58 ∷ 32 ∷ 66 ∷ []))
    ≡ (65 ∷ []) ∷ (66 ∷ []) ∷ []
unfolding write_sse
carriage_returns_forge = refl
