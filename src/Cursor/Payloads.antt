-- ===== src/Cursor/Payloads.antt =====
-- The payloads of the cursor stream in `core/proto/fly_ruler.proto`, and what a client hands on.
use fly_ruler_proto.Base.{ℕ, zero, suc, Bool, Option, none, some, List}
use fly_ruler_proto.Base.Int.{ℤ, pos}
use fly_ruler_proto.Base.Equality.{Str}
use fly_ruler_proto.Float.{F64}
use fly_ruler_proto.Pb.{Uuid, AircraftState, AircraftCommandInfo}

pub record CursorAircraftSnapshot : Type 0 where
  pub aircraft_id : Option Uuid
  pub name : Str
  pub toml_config : Str
  pub source_timestamp : F64
  pub stale : Bool
  pub state : Option AircraftState

pub record CursorFrame : Type 0 where
  pub server_epoch : Option Uuid
  pub frame_sequence : ℕ
  pub mode : ℤ
  pub cursor : Option F64
  pub lower_bound : Option F64
  pub upper_bound : Option F64
  pub speed : F64
  pub revision : ℕ
  pub event_watermark : ℕ
  pub generated_at : F64
  pub aircraft : List CursorAircraftSnapshot

pub record CursorEvent : Type 0 where
  pub sequence : ℕ
  pub aircraft_id : Option Uuid
  pub source_timestamp : F64
  pub info : Option AircraftCommandInfo

pub record CursorEventBatch : Type 0 where
  pub server_epoch : Option Uuid
  pub event_sequence : ℕ
  pub revision : ℕ
  pub baseline : Bool
  pub baseline_complete : Bool
  pub events : List CursorEvent

pub record CursorReset : Type 0 where
  pub server_epoch : Option Uuid
  pub revision : ℕ
  pub cursor : Option F64
  pub reason : Str

pub data CursorPayloadKind : Type 0 where
  unspecified frame_kind batch_kind reset_kind : CursorPayloadKind

-- `CursorPayloadKind::try_from(i32)`.
abbrev pub cursor_payload_kind : ℤ → Option CursorPayloadKind
cursor_payload_kind (pos zero) = some unspecified
cursor_payload_kind (pos (suc zero)) = some frame_kind
cursor_payload_kind (pos (suc (suc zero))) = some batch_kind
cursor_payload_kind (pos (suc (suc (suc zero)))) = some reset_kind
cursor_payload_kind n = none

-- `CursorClientEvent`.
pub data CursorClientEvent : Type 0 where
  frame : CursorFrame → CursorClientEvent
  event_batch : CursorEventBatch → CursorClientEvent
  reset : CursorReset → CursorClientEvent

-- The protobuf decoder of each payload, which prost provides: nothing on malformed bytes.
pub record Decoders : Type 0 where
  pub decode_frame : List ℕ → Option CursorFrame
  pub decode_batch : List ℕ → Option CursorEventBatch
  pub decode_reset : List ℕ → Option CursorReset
