-- ===== src/Service/Triggers.antt =====
-- ManualAdminTrigger of pkg/ares/transport/trigger.go, on a runner with lineage. `set` is ctx.Set.
use ares_energy_demo.Prelude.{
  ℕ, suc, pos, List, [], ◌∷◌, Option, none, some, if◌then◌else◌, lookup, insert,
}
use ares_energy_demo.Auction.State.{Bytes}
use ares_energy_demo.Runner.Types.{Name, name_eq, is_none}
use ares_energy_demo.Runner.Sessions.{Outcome, done, failed, panicked, Tracker}
use ares_energy_demo.Dispatch.Sessions.{Shared}
use ares_energy_demo.Dispatch.Messages.{LineageRunner, begin_lineage_session}
use ares_energy_demo.Transport.Frames.{WsMessage}
use ares_energy_demo.Transport.Hub.{Hub, is_empty, broadcast_to_session}

-- The trigger with the hub and the runner that it points to.
pub record Trigger (C V : Type 0) : Type 0 where
  pub runner : LineageRunner C V
  pub hub : Hub
  pub invite_type : Name
  pub started_count : ℕ

pub data StartResult : Type 0 where
  started no_participants not_begun : StartResult

abbrev pub invitation : Name → WsMessage
invitation type = record {
  version = [];
  type = type;
  session_id = [];
  seq = pos 0;
  payload = [];
  timestamp = [];
  lineage = none;
}

abbrev pub set_all : {C A : Type 0} → (C → Name → A → C) → C → List (Name × A) → C
set_all set c [] = c
set_all set c ((k, v) ∷ attrs) = set_all set (set c k v) attrs

module _ {C V A : Type 0} (set : C → Name → A → C) (new_context : Name → Name → C) where
  -- The attributes go into the context of the session that has begun.
  abbrev pub seed :
      LineageRunner C V → Name → List (Name × A) → Option (Tracker (Shared C) V) → LineageRunner C V
  seed r id attrs none = r
  seed r id attrs (some t) = record r {
    sessions = insert id (record t { ctx = (set_all set t.ctx.0 attrs, t.ctx.1) }) r.sessions;
  }

  abbrev pub invite : Trigger C V → Bytes → Name → List Name → Trigger C V
  invite t stamp id participants = if is_none t.invite_type then t else record t {
    hub = broadcast_to_session t.hub stamp id participants (invitation t.invite_type);
  }

  abbrev pub after_start :
      Trigger C V
      → Bytes
      → Name
      → List Name
      → List (Name × A)
      → LineageRunner C V × Outcome C
      → Trigger C V × StartResult
  after_start t stamp id participants attrs (r, done c) =
      let r' = seed r id attrs (lookup id r.sessions) in
      (invite (record t { runner = r' }) stamp id participants, started)
  after_start t stamp id participants attrs (r, failed e) = (record t { runner = r }, not_begun)
  after_start t stamp id participants attrs (r, panicked) = (record t { runner = r }, not_begun)

  -- The count grows before the session is begun.
  unfoldable pub start :
      Trigger C V → Bytes → Name → List Name → List (Name × A) → Trigger C V × StartResult
  unfolding begin_lineage_session broadcast_to_session
  start t stamp id participants attrs =
      if is_empty participants
      then (t, no_participants)
      else after_start (record t { started_count = suc t.started_count }) stamp id participants
          attrs (begin_lineage_session new_context t.runner id [])
