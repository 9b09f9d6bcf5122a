-- ===== src/Store/Valid/Messages.antt =====
-- No message, whatever it holds, breaks the order of a vector.
use fly_ruler_proto.Base.{
  ℕ, ◌≡◌, refl, ◌⊎◌, inl, inr, Option, none, some, arith, and_then, if◌then◌else◌, map_option,
}
use fly_ruler_proto.Float.{F64, is_finite}
use fly_ruler_proto.Pb.{
  AircraftState, TelemetryFrame, AircraftSpawnInfo, AircraftCommand, spawn, despawn, state_update,
  custom_event, telemetry_frame, Message, Command, Envelope, Request, AircraftEvent, aircraft_event,
  request, handshake, response, heartbeat, server_push, cursor_subscribe, cursor_event_ack,
}
use fly_ruler_proto.Store.{
  AircraftId, spawned, despawned, custom, TimeSeriesStore, StoreError, StoreResult, ok, err,
}
use fly_ruler_proto.Store.Append.{append_event, append_telemetry}
use fly_ruler_proto.Store.Ingest.{
  receive_state, receive_spawn, receive_telemetry, receive_command, append_message, aircraft_id_of,
}
use fly_ruler_proto.Store.Valid.Steps.{
  IsValid, append_state-IsValid, append_event-IsValid, append_telemetry-IsValid,
}
use fly_ruler_proto.Store.Telemetry.{validate_telemetry_schemas}

abbrev request_of : Envelope → Option Request
request_of (request req) = some req
request_of (response r) = none
request_of (server_push p) = none

abbrev event_of : Command → Option AircraftEvent
event_of (aircraft_event e) = some e
event_of (handshake h) = none
event_of (heartbeat h) = none
event_of (cursor_subscribe c) = none
event_of (cursor_event_ack a) = none

pub StoreResult-cases :
    {A : Type 0} (r : StoreResult A) → ((a : A) × (r ≡ ok a)) ⊎ ((e : StoreError) × (r ≡ err e))
StoreResult-cases (ok a) = inl (a, refl)
StoreResult-cases (err e) = inr (e, refl)

receive_state-IsValid :
    (s : TimeSeriesStore) (now : ℕ) (id : AircraftId) (t : F64) (state : AircraftState)
    → IsValid s
    → IsValid (receive_state s now id t state)
unfolding receive_state
receive_state-IsValid s now id t state h = append_state-IsValid s id t state h

-- The state that comes with a spawn, if any.
unfoldable pub receive_initial :
    TimeSeriesStore → ℕ → AircraftId → F64 → Option AircraftState → TimeSeriesStore
receive_initial s now id t none = s
receive_initial s now id t (some state) = receive_state s now id t state

receive_initial-IsValid :
    (s : TimeSeriesStore) (now : ℕ) (id : AircraftId) (t : F64) (o : Option AircraftState)
    → IsValid s
    → IsValid (receive_initial s now id t o)
unfolding receive_initial
receive_initial-IsValid s now id t none h = h
receive_initial-IsValid s now id t (some state) h = receive_state-IsValid s now id t state h

pub receive_spawn_lem :
    (s : TimeSeriesStore) (now : ℕ) (id : AircraftId) (t : F64) (info : AircraftSpawnInfo)
    → validate_telemetry_schemas info.telemetry_schemas ≡ ok tt
    → receive_spawn s now id t info
      ≡ append_event (receive_initial s now id t info.initial_state) id t (spawned info)
unfolding receive_spawn receive_initial
receive_spawn_lem s now id t info e = ground arith

receive_spawn-IsValid :
    (s : TimeSeriesStore) (now : ℕ) (id : AircraftId) (t : F64) (info : AircraftSpawnInfo)
    → IsValid s
    → IsValid (receive_spawn s now id t info)
unfolding receive_spawn
receive_spawn-IsValid s now id t info h =
    elim (StoreResult-cases (validate_telemetry_schemas info.telemetry_schemas)) [
      | inl (u, e) ↦ rw (receive_spawn_lem s now id t info e) (
          append_event-IsValid _ id t (spawned info)
            (receive_initial-IsValid s now id t info.initial_state h))
      | inr (r, e) ↦ rw (e, receive_spawn) h
    ]

receive_telemetry-IsValid :
    (s : TimeSeriesStore) (id : AircraftId) (t : F64) (frame : TelemetryFrame)
    → IsValid s
    → IsValid (receive_telemetry s id t frame)
unfolding receive_telemetry
receive_telemetry-IsValid s id t frame h =
    elim (StoreResult-cases (append_telemetry s id t frame)) [
      | inl (s', e) ↦ rw (e, receive_telemetry) (append_telemetry-IsValid s s' id t frame h e)
      | inr (r, e) ↦ rw (e, receive_telemetry) h
    ]

receive_command-IsValid :
    (s : TimeSeriesStore) (now : ℕ) (id : AircraftId) (t : F64) (c : AircraftCommand)
    → IsValid s
    → IsValid (receive_command s now id t c)
unfolding receive_command
receive_command-IsValid s now id t (state_update state) h = receive_state-IsValid s now id t state h
receive_command-IsValid s now id t (spawn info) h = receive_spawn-IsValid s now id t info h
receive_command-IsValid s now id t (despawn info) h = append_event-IsValid s id t (despawned info) h
receive_command-IsValid s now id t (custom_event text) h =
    append_event-IsValid s id t (custom text) h
receive_command-IsValid s now id t (telemetry_frame frame) h =
    receive_telemetry-IsValid s id t frame h

-- The aircraft command that a message carries, with its aircraft and its time, if the handler
-- acts on it.
pub command_of : Message → Option (AircraftId × F64 × AircraftCommand)
command_of msg = and_then (and_then msg.envelope request_of) (λ req.
    if is_finite req.timestamp
    then and_then (and_then (and_then req.command (λ c. c.kind)) event_of) (λ e.
      map_option (λ c. (aircraft_id_of e.aircraft_id, req.timestamp, c))
        (and_then e.info (λ i. i.kind)))
    else none)

abbrev pub run_command :
    TimeSeriesStore → ℕ → Option (AircraftId × F64 × AircraftCommand) → TimeSeriesStore
run_command s now none = s
run_command s now (some (id, t, c)) = receive_command s now id t c

-- `append_message` acts on the command that the message carries, and on no other message.
pub append_message-command_of :
    (s : TimeSeriesStore) (now : ℕ) (msg : Message)
    → append_message s now msg ≡ run_command s now (command_of msg)
unfolding append_message command_of
append_message-command_of s now msg = ground arith

run_command-IsValid :
    (s : TimeSeriesStore) (now : ℕ) (o : Option (AircraftId × F64 × AircraftCommand))
    → IsValid s
    → IsValid (run_command s now o)
run_command-IsValid s now none h = h
run_command-IsValid s now (some (id, t, c)) h = receive_command-IsValid s now id t c h

-- If every vector of the store is sorted by time with finite times, it is so after any message is
-- handled, whatever the message holds and whenever it comes.
pub append_message-IsValid :
    (s : TimeSeriesStore) (now : ℕ) (msg : Message) → IsValid s → IsValid (append_message s now msg)
append_message-IsValid s now msg h =
    rw (append_message-command_of s now msg) (run_command-IsValid s now (command_of msg) h)
