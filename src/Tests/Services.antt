-- ===== src/Tests/Services.antt =====
-- A service in production at concrete inputs (pkg/ares/transport).
use ares_energy_demo.Prelude.{ℕ, ◌≡◌, ◌≢◌, refl, pos, true, false, [], ◌∷◌, none, some, ◌⊎◌}
use ares_energy_demo.Runner.Types.{name_beq}
use ares_energy_demo.Runner.Compose.{unbuilt}
use ares_energy_demo.Lineage.Verify.{Signer}
use ares_energy_demo.Lineage.Store.{new_in_memory_store}
use ares_energy_demo.Dispatch.Outputs.{Reads}
use ares_energy_demo.Dispatch.Messages.{LineageRunner}
use ares_energy_demo.Transport.Frames.{WsMessage}
use ares_energy_demo.Transport.Hub.{
  new_hub, check_origin, generate_token, validate_token, register, handle_ws, upgraded,
}
use ares_energy_demo.Transport.Events.{SessionEventRing}
use ares_energy_demo.Service.Assembly.{
  Config, Service, assemble, new_service, service_frame, service,
}
use ares_energy_demo.Service.Checks.{
  service_frame-Cleared, Untouched, Cleared, production_needs_token,
}

abbrev ring : SessionEventRing
ring = record { limit = 128; ring = [] }

abbrev signer : Signer
signer = record {
  public_key = 7 ∷ [];
  algorithm_name = 97 ∷ [];
  sign = λ m. some m;
  verify_signature = λ key m sig. name_beq m sig;
}

abbrev runner : LineageRunner ℕ ℕ
runner = record {
  built = unbuilt;
  phase_count = 0;
  sessions = [];
  store = new_in_memory_store;
  signer = signer;
  verifiers = [];
  has_hook = true;
  events = [];
}

abbrev config : Config ℕ ℕ
config = record {
  addr = 58 ∷ [];
  secret = 1 ∷ [];
  allow_dev_bypass = false;
  production = true;
  hmac = λ key m. m;
  runner = some runner;
  event_ring = some ring;
  allowed_origins = [];
}

abbrev made : Service ℕ ℕ
made = assemble config runner

config-made : new_service config ≡ service made
unfolding new_service
config-made = refl

upgraded_once : (handle_ws made.auth made.hub [] (112 ∷ []) (112 ∷ []) 0).1 ≡ upgraded 0
unfolding handle_ws validate_token generate_token check_origin register new_hub
upgraded_once = refl

production_needs_token_example :
    (made.auth.secret ≢ []) × (generate_token made.auth (112 ∷ []) ≡ 112 ∷ [])
production_needs_token_example =
    production_needs_token config made made.hub [] (112 ∷ []) (112 ∷ []) 0 0 config-made refl
      upgraded_once

-- The hub with one connection, and a frame with a forged node on it.
abbrev connected : Service ℕ ℕ
connected = record made { hub = (handle_ws made.auth made.hub [] (112 ∷ []) (112 ∷ []) 0).0 }

abbrev forged : WsMessage
forged = record {
  version = 50 ∷ [];
  type = 109 ∷ [];
  session_id = 115 ∷ [];
  seq = pos 1;
  payload = [];
  timestamp = [];
  lineage = some (record {
    hash = [];
    session_id = [];
    phase_id = [];
    role = [];
    parents = [];
    parent_roles = [];
    payload_hash = [];
    created_at = 0;
    producer = [];
    signature = [];
    algorithm = [];
  });
}

abbrev reads : Reads ℕ
reads = record { session_of = λ c. 115 ∷ []; bytes_of = λ c key. none }

service_frame-Cleared_example :
    Untouched
      (λ b. b)
      3
      reads
      connected.runner
      (service_frame (λ b. b) reads (λ o. []) 1 3 connected 0 forged).runner
    ⊎ Cleared (λ b. b) 3 reads connected.runner forged
service_frame-Cleared_example =
    service_frame-Cleared (λ b. b) 3 reads (λ o. []) 1 connected 0 forged
