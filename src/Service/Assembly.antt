-- ===== src/Service/Assembly.antt =====
-- NewService and its message handler (pkg/ares/transport/service.go), and the trigger that starts
-- sessions (trigger.go). The environment's ARES_ENV, an error's text and ctx.Set are parameters.
use ares_energy_demo.Prelude.{ℕ, Bool, not, ◌&&◌, List, Option, none, some, if◌then◌else◌}
use ares_energy_demo.Auction.State.{Bytes}
use ares_energy_demo.Runner.Types.{Name, name_eq, is_none}
use ares_energy_demo.Lineage.Node.{NodeRef, DagNode}
use ares_energy_demo.Dispatch.Outputs.{Reads}
use ares_energy_demo.Dispatch.Messages.{
  LineageRunner, LineageOutcome, as_passed, handle_plain_message, handle_lineage_message,
}
use ares_energy_demo.Transport.Frames.{WsMessage}
use ares_energy_demo.Transport.Hub.{
  ConnId, Hub, new_hub, is_empty, AuthMiddleware, Fate, not_open, invalid_frame, replay_drop,
  rate_drop, dispatched, read_frame,
}
use ares_energy_demo.Transport.Events.{
  SessionEvent, SessionEventRing, new_session_event_ring, record_event,
}

-- `production` is whether ARES_ENV says so; `hmac` is HMAC-SHA256 in hex digits.
pub record Config (C V : Type 0) : Type 0 where
  pub addr : Name
  pub secret : Bytes
  pub allow_dev_bypass : Bool
  pub production : Bool
  pub hmac : Bytes → Bytes → Name
  pub runner : Option (LineageRunner C V)
  pub event_ring : Option SessionEventRing
  pub allowed_origins : List Name

pub data ServiceError : Type 0 where
  no_addr no_runner empty_secret bypass_in_production : ServiceError

pub record Service (C V : Type 0) : Type 0 where
  pub hub : Hub
  pub auth : AuthMiddleware
  pub runner : LineageRunner C V
  pub ring : SessionEventRing

pub data NewService (C V : Type 0) : Type 0 where
  service : Service C V → NewService C V
  refused : ServiceError → NewService C V

abbrev pub ring_or_new : Option SessionEventRing → SessionEventRing
ring_or_new none = new_session_event_ring 128
ring_or_new (some r) = r

module _ {C V : Type 0} where
  abbrev pub assemble : Config C V → LineageRunner C V → Service C V
  assemble cfg r = record {
    hub = new_hub (record {
      allowed_origins = cfg.allowed_origins;
      allow_any_origin = is_empty cfg.allowed_origins && cfg.allow_dev_bypass;
      inbound_rate = 0;
      inbound_burst = 0;
    });
    auth = record { secret = cfg.secret; allow_dev_bypass = cfg.allow_dev_bypass; hmac = cfg.hmac };
    runner = r;
    ring = ring_or_new cfg.event_ring;
  }

  abbrev pub with_runner : Config C V → Option (LineageRunner C V) → NewService C V
  with_runner cfg none = refused no_runner
  with_runner cfg (some r) =
      if is_none cfg.secret && not cfg.allow_dev_bypass
      then refused empty_secret
      else if cfg.allow_dev_bypass && cfg.production
      then refused bypass_in_production
      else service (assemble cfg r)

  unfoldable pub new_service : Config C V → NewService C V
  new_service cfg = if is_none cfg.addr then refused no_addr else with_runner cfg cfg.runner

  module _ (sha256 : Bytes → NodeRef) (reads : Reads C) (describe : LineageOutcome → Name) where
    -- A frame with a node goes through the lineage's checks, one without past them.
    abbrev pub route :
        ℕ
        → LineageRunner C V
        → Name
        → WsMessage
        → Option DagNode
        → LineageRunner C V × LineageOutcome
    route now r from m (some node) =
        handle_lineage_message sha256 now reads r m.session_id m.type from m.payload (some node)
    route now r from m none =
        as_passed (handle_plain_message sha256 now reads r m.session_id m.type from m.payload)

    abbrev pub recorded :
        ℕ → Service C V → Name → WsMessage → LineageRunner C V × LineageOutcome → Service C V
    recorded now s from m (r, o) =
        let e : SessionEvent = record {
          time = now;
          session_id = m.session_id;
          type = m.type;
          from = from;
          error = describe o;
        } in
        record s { runner = r; ring = record_event s.ring e }

    -- The message handler.
    unfoldable pub on_message : ℕ → Service C V → Name → WsMessage → Service C V
    on_message now s from m =
        if is_none m.session_id
        then s
        else recorded now s from m (route now s.runner from m m.lineage)

    abbrev pub served : ℕ → Service C V → Fate → Service C V
    served now s (dispatched from m) = on_message now s from m
    served now s not_open = s
    served now s invalid_frame = s
    served now s replay_drop = s
    served now s rate_drop = s

    -- A frame of a connection, from the hub's checks to the session's phase.
    unfoldable pub service_frame : ℕ → ℕ → Service C V → ConnId → WsMessage → Service C V
    unfolding on_message
    service_frame one now s conn m =
        let (h, fate) = read_frame one s.hub conn m now in served now (record s { hub = h }) fate
