-- ===== src/Transport/Frames.antt =====
-- The frames of pkg/ares/transport: WSMessage and the replay check of hub.go, and validate.go.
use ares_energy_demo.Prelude.{
  ℤ, pos, negsuc, Bool, true, false, List, [], ◌∷◌, ◌++◌, Option, none, some, leb, if◌then◌else◌,
  ◌==◌, int_eq, lookup, insert,
}
use ares_energy_demo.Auction.State.{Bytes}
use ares_energy_demo.Runner.Types.{Name, name_eq, is_none}
use ares_energy_demo.Lineage.Node.{DagNode}

-- "1" and "2"
abbrev pub wire_protocol_version : Name
wire_protocol_version = 49 ∷ []

abbrev pub wire_protocol_version_lineage : Name
wire_protocol_version_lineage = 50 ∷ []

-- `seq` is an int64 that is only compared.
pub record WsMessage : Type 0 where
  pub version : Name
  pub type : Name
  pub session_id : Name
  pub seq : ℤ
  pub payload : Bytes
  pub timestamp : Bytes
  pub lineage : Option DagNode

pub data Invalid : Type 0 where
  lineage_missing unknown_version : Invalid

abbrev pub effective_version : Name → Name
effective_version v = if is_none v then wire_protocol_version else v

abbrev pub missing : Option DagNode → Option Invalid
missing none = some lineage_missing
missing (some _) = none

-- `none` accepts the frame.
unfoldable pub validate_inbound_message : WsMessage → Option Invalid
validate_inbound_message m =
    let v = effective_version m.version in
    if v == wire_protocol_version
    then none
    else if v == wire_protocol_version_lineage
    then missing m.lineage
    else some unknown_version

abbrev pub int_leb : ℤ → ℤ → Bool
int_leb (pos a) (pos b) = leb a b
int_leb (pos a) (negsuc b) = false
int_leb (negsuc a) (pos b) = true
int_leb (negsuc a) (negsuc b) = leb b a

-- `msg.SessionID + "|" + pseudonym + "|" + msg.Type`
unfoldable pub seq_key : Name → Name → Name → Name
seq_key session pseudonym type = session ++ (124 ∷ (pseudonym ++ (124 ∷ type)))

-- The frame does not exceed the highest number seen.
abbrev pub is_replay : Option ℤ → ℤ → Bool
is_replay none seq = false
is_replay (some last) seq = int_leb seq last

unfoldable pub check_and_record_seq : List (Name × ℤ) → Name → WsMessage → List (Name × ℤ) × Bool
unfolding seq_key
check_and_record_seq high pseudonym m =
    let key = seq_key m.session_id pseudonym m.type in
    if m.seq == pos 0
    then (high, true)
    else if is_replay (lookup key high) m.seq
    then (high, false)
    else (insert key m.seq high, true)
