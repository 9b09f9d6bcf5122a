-- ===== src/Pb.antt =====
-- The protobuf messages of `core/proto/fly_ruler.proto`, as `core/build.rs` gives them to Rust:
-- a message field is an option, an enumeration an integer, `bytes` a list of bytes.
use fly_ruler_proto.Base.{ℕ, zero, suc, Bool, Option, none, some, List}
use fly_ruler_proto.Base.Int.{ℤ, pos}
use fly_ruler_proto.Base.Equality.{Str}
use fly_ruler_proto.Float.{F64}

pub record Uuid : Type 0 where
  pub bytes : List ℕ

pub record Vector3 : Type 0 where
  pub x : F64
  pub y : F64
  pub z : F64

pub record Quaternion : Type 0 where
  pub w : F64
  pub x : F64
  pub y : F64
  pub z : F64

pub record DerivedState : Type 0 where
  pub lat : F64
  pub lon : F64
  pub altitude : F64
  pub alpha : F64
  pub beta : F64
  pub tas : F64
  pub eas : F64
  pub gamma : F64
  pub chi : F64
  pub ias : Option F64
  pub cas : Option F64
  pub mach : Option F64
  pub ground_speed : Option F64
  pub vertical_speed : Option F64
  pub dynamic_pressure : Option F64
  pub normal_load_factor : Option F64

pub record ControlSurfaceState : Type 0 where
  pub aileron_left_rad : Option F64
  pub aileron_right_rad : Option F64
  pub elevator_rad : Option F64
  pub rudder_rad : Option F64
  pub flaps_left_ratio : Option F64
  pub flaps_right_ratio : Option F64
  pub spoilers_ratio : Option F64

pub record PropulsorState : Type 0 where
  pub propulsor_id : Str
  pub kind : ℤ
  pub throttle_ratio : Option F64
  pub rpm : Option F64
  pub blade_pitch_rad : Option F64
  pub thrust_newton : Option F64
  pub torque_newton_meter : Option F64
  pub index : Option ℕ

pub record AircraftState : Type 0 where
  pub position : Option Vector3
  pub velocity : Option Vector3
  pub attitude : Option Quaternion
  pub angular_velocity : Option Vector3
  pub derived : Option DerivedState
  pub control_surfaces : Option ControlSurfaceState
  pub linear_acceleration_body : Option Vector3
  pub propulsors : List PropulsorState

pub data TelemetryValueType : Type 0 where
  unspecified f64_type i64_type bool_type : TelemetryValueType

-- `TelemetryValueType::try_from(i32)`.
abbrev pub telemetry_value_type : ℤ → Option TelemetryValueType
telemetry_value_type (pos zero) = some unspecified
telemetry_value_type (pos (suc zero)) = some f64_type
telemetry_value_type (pos (suc (suc zero))) = some i64_type
telemetry_value_type (pos (suc (suc (suc zero)))) = some bool_type
telemetry_value_type n = none

pub record TelemetryField : Type 0 where
  pub field_id : Str
  pub label : Str
  pub group : Str
  pub unit : Str
  pub description : Str
  pub value_type : ℤ

pub record TelemetryStreamSchema : Type 0 where
  pub stream_id : Str
  pub name : Str
  pub nominal_rate_hz : Option F64
  pub fields : List TelemetryField

-- The `oneof` of a `TelemetryValue`.
pub data TelemetryKind : Type 0 where
  f64_value : F64 → TelemetryKind
  i64_value : ℤ → TelemetryKind
  bool_value : Bool → TelemetryKind

pub record TelemetryValue : Type 0 where
  pub kind : Option TelemetryKind

pub record TelemetryFrame : Type 0 where
  pub stream_id : Str
  pub sequence : ℕ
  pub values : List TelemetryValue

pub record AircraftSpawnInfo : Type 0 where
  pub name : Str
  pub toml_config : Str
  pub initial_state : Option AircraftState
  pub telemetry_schemas : List TelemetryStreamSchema

pub record DespawnInfo : Type 0 where
  pub reason : Option Str

-- The `oneof` of an `AircraftCommandInfo`.
pub data AircraftCommand : Type 0 where
  spawn : AircraftSpawnInfo → AircraftCommand
  despawn : DespawnInfo → AircraftCommand
  state_update : AircraftState → AircraftCommand
  custom_event : Str → AircraftCommand
  telemetry_frame : TelemetryFrame → AircraftCommand

pub record AircraftCommandInfo : Type 0 where
  pub kind : Option AircraftCommand

pub record AircraftEvent : Type 0 where
  pub aircraft_id : Option Uuid
  pub info : Option AircraftCommandInfo

pub data ClientRole : Type 0 where
  unspecified_role producer cursor_subscriber : ClientRole

-- `ClientRole::try_from(i32)`.
abbrev pub client_role : ℤ → Option ClientRole
client_role (pos zero) = some unspecified_role
client_role (pos (suc zero)) = some producer
client_role (pos (suc (suc zero))) = some cursor_subscriber
client_role n = none

pub record Handshake : Type 0 where
  pub version : Str
  pub client_uuid : Option Uuid
  pub role : ℤ

pub record Heartbeat : Type 0 where
  pub seq_num : ℕ
  pub client_uuid : Option Uuid

pub record CursorSubscribe : Type 0 where
  pub requested_hz : F64

pub record CursorEventAck : Type 0 where
  pub server_epoch : Option Uuid
  pub event_sequence : ℕ

-- The `oneof` of a `RequestCommand`.
pub data Command : Type 0 where
  handshake : Handshake → Command
  heartbeat : Heartbeat → Command
  aircraft_event : AircraftEvent → Command
  cursor_subscribe : CursorSubscribe → Command
  cursor_event_ack : CursorEventAck → Command

pub record RequestCommand : Type 0 where
  pub kind : Option Command

pub record Request : Type 0 where
  pub id : Option Uuid
  pub timestamp : F64
  pub command : Option RequestCommand

pub data ResponseKind : Type 0 where
  ack : Bool → ResponseKind
  aircraft_spawned : Uuid → ResponseKind

pub data ErrorCode : Type 0 where
  unspecified_error invalid_aircraft_id toml_parse_error unknown_field : ErrorCode
  protocol_version_mismatch invalid_state invalid_telemetry_schema : ErrorCode
  invalid_telemetry_frame : ErrorCode

pub record ResponseError : Type 0 where
  pub code : ErrorCode
  pub message : Str
  pub aircraft_id : Option Uuid

pub data ResponseResult : Type 0 where
  ok_result : Option ResponseKind → ResponseResult
  err_result : ResponseError → ResponseResult

pub record Response : Type 0 where
  pub id : Option Uuid
  pub timestamp : F64
  pub result : Option ResponseResult

pub record CursorChunk : Type 0 where
  pub server_epoch : Option Uuid
  pub kind : ℤ
  pub sequence : ℕ
  pub chunk_index : ℕ
  pub chunk_count : ℕ
  pub total_size : ℕ
  pub checksum : ℕ
  pub payload : List ℕ

pub data Envelope : Type 0 where
  request : Request → Envelope
  response : Response → Envelope
  server_push : Option CursorChunk → Envelope

pub record Message : Type 0 where
  pub envelope : Option Envelope
