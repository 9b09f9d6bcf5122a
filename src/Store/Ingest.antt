-- ===== src/Store/Ingest.antt =====
-- `append_message_with_config` of `core/src/store.rs`: what one datagram does to the store.
use fly_ruler_proto.Base.Equality.{string_eq, Str}
use fly_ruler_proto.Base.{ℕ, Option, none, some, [], ◌∷◌, if◌then◌else◌, and_then}
use fly_ruler_proto.Base.Hex.{hex_of_bytes}
use fly_ruler_proto.Base.Dict.{insert, remove}
use fly_ruler_proto.Float.{F64, is_finite}
use fly_ruler_proto.Pb.{
  Uuid, AircraftState, TelemetryFrame, AircraftSpawnInfo, AircraftCommand, spawn, despawn,
  state_update, custom_event, telemetry_frame, AircraftEvent, Command, handshake, heartbeat,
  aircraft_event, cursor_subscribe, cursor_event_ack, Request, request, response, server_push,
  Message,
}
use fly_ruler_proto.Store.{AircraftId, spawned, despawned, custom, TimeSeriesStore, ok, err}
use fly_ruler_proto.Store.Append.{append_state, append_event, append_telemetry}
use fly_ruler_proto.Store.Telemetry.{validate_telemetry_schemas}

-- "unknown".
abbrev pub unknown_id : Str
unknown_id = b'u' ∷ b'n' ∷ b'k' ∷ b'n' ∷ b'o' ∷ b'w' ∷ b'n' ∷ []

abbrev pub aircraft_id_of : Option Uuid → AircraftId
aircraft_id_of none = unknown_id
aircraft_id_of (some u) = hex_of_bytes u.bytes

-- `self.live_state_receipts.insert(id, Instant::now())`, and `remove`.
abbrev pub note_receipt : ℕ → AircraftId → TimeSeriesStore → TimeSeriesStore
note_receipt now id s = record s { live_state_receipts = insert id now s.live_state_receipts }

abbrev pub forget_receipt : AircraftId → TimeSeriesStore → TimeSeriesStore
forget_receipt id s = record s { live_state_receipts = remove id s.live_state_receipts }

-- A state sample that came in now.
unfoldable pub receive_state :
    TimeSeriesStore → ℕ → AircraftId → F64 → AircraftState → TimeSeriesStore
receive_state s now id t state = note_receipt now id (append_state s id t state)

unfoldable pub receive_spawn :
    TimeSeriesStore → ℕ → AircraftId → F64 → AircraftSpawnInfo → TimeSeriesStore
receive_spawn s now id t info = elim (validate_telemetry_schemas info.telemetry_schemas) [
  | err e ↦ s
  | ok u ↦
      let s' : TimeSeriesStore = elim info.initial_state [
        | none ↦ s
        | some state ↦ receive_state s now id t state
      ] in
      append_event s' id t (spawned info)
]

unfoldable pub receive_telemetry :
    TimeSeriesStore → AircraftId → F64 → TelemetryFrame → TimeSeriesStore
receive_telemetry s id t frame = elim (append_telemetry s id t frame) [ ok s' ↦ s' | err e ↦ s ]

-- The `match info` of the handler.
unfoldable pub receive_command :
    TimeSeriesStore → ℕ → AircraftId → F64 → AircraftCommand → TimeSeriesStore
receive_command s now id t (state_update state) = receive_state s now id t state
receive_command s now id t (spawn info) = receive_spawn s now id t info
receive_command s now id t (despawn info) = forget_receipt id (append_event s id t (despawned info))
receive_command s now id t (custom_event text) = append_event s id t (custom text)
receive_command s now id t (telemetry_frame frame) = receive_telemetry s id t frame

abbrev pub receive_event : TimeSeriesStore → ℕ → F64 → AircraftEvent → TimeSeriesStore
receive_event s now t event = elim (and_then event.info (λ i. i.kind)) [
  | none ↦ s
  | some command ↦ receive_command s now (aircraft_id_of event.aircraft_id) t command
]

abbrev pub receive_request_command : TimeSeriesStore → ℕ → F64 → Command → TimeSeriesStore
receive_request_command s now t (aircraft_event event) = receive_event s now t event
receive_request_command s now t (handshake h) = s
receive_request_command s now t (heartbeat h) = s
receive_request_command s now t (cursor_subscribe c) = s
receive_request_command s now t (cursor_event_ack c) = s

abbrev pub receive_request : TimeSeriesStore → ℕ → Request → TimeSeriesStore
receive_request s now req =
    if is_finite req.timestamp
    then elim (and_then req.command (λ c. c.kind)) [
      | none ↦ s
      | some command ↦ receive_request_command s now req.timestamp command
    ]
    else s

-- `now` is the monotonic clock when the message is handled.
unfoldable pub append_message : TimeSeriesStore → ℕ → Message → TimeSeriesStore
append_message s now msg = elim msg.envelope [
  | none ↦ s
  | some envelope ↦ elim envelope [
    | request req ↦ receive_request s now req
    | response r ↦ s
    | server_push p ↦ s
  ]
]
