-- ===== src/Transport/Traffic.antt =====
-- What happens to the hub of pkg/ares/transport/hub.go, event by event, with the frames that it has
-- passed on to the message handler.
use ares_energy_demo.Prelude.{ℕ, List, [], ◌∷◌}
use ares_energy_demo.Auction.State.{Bytes}
use ares_energy_demo.Runner.Types.{Name}
use ares_energy_demo.Transport.Frames.{WsMessage}
use ares_energy_demo.Transport.Hub.{
  ConnId, AuthMiddleware, Hub, Fate, not_open, invalid_frame, replay_drop, rate_drop, dispatched,
  handle_ws, close_conn, read_frame, send_to, broadcast_to_session, broadcast,
}

-- A frame that was passed on, with its sender.
abbrev pub Dispatch : Type 0
Dispatch = Name × WsMessage

abbrev pub logged : Fate → List Dispatch → List Dispatch
logged (dispatched p m) log = (p, m) ∷ log
logged not_open log = log
logged invalid_frame log = log
logged replay_drop log = log
logged rate_drop log = log

-- A request to connect, with its origin, pseudonym and token; a frame; the end of a connection; what
-- the application sends.
pub data Event : Type 0 where
  connects : Name → Name → Name → ℕ → Event
  frame : ConnId → WsMessage → ℕ → Event
  ends : ConnId → Event
  sends : Bytes → Name → WsMessage → Event
  sends_session : Bytes → Name → List Name → WsMessage → Event
  sends_all : Bytes → WsMessage → Event

module _ (one : ℕ) (auth : AuthMiddleware) where
  -- The log has the newest frame first.
  unfoldable pub step : Hub × List Dispatch → Event → Hub × List Dispatch
  step (h, log) (connects origin p token now) = ((handle_ws auth h origin p token now).0, log)
  step (h, log) (frame conn m now) =
      let (h', fate) = read_frame one h conn m now in (h', logged fate log)
  step (h, log) (ends conn) = (close_conn h conn, log)
  step (h, log) (sends stamp p m) = (send_to h stamp p m, log)
  step (h, log) (sends_session stamp s ps m) = (broadcast_to_session h stamp s ps m, log)
  step (h, log) (sends_all stamp m) = (broadcast h stamp m, log)

  abbrev pub run : Hub × List Dispatch → List Event → Hub × List Dispatch
  run s [] = s
  run s (e ∷ es) = run (step s e) es
