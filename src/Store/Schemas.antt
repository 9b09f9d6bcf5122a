-- ===== src/Store/Schemas.antt =====
-- The schemas that aircraft have registered passed the validation, in a store fed by messages.
use fly_ruler_proto.Store.Valid.Steps.{append_telemetry-ok}
use fly_ruler_proto.Store.Telemetry.Registered.{empty_schemas}
use fly_ruler_proto.Float.{is_finite}
use fly_ruler_proto.Base.Dict.{AllValues, lookup, AllValues-lookup, AllValues-insert}
use fly_ruler_proto.Store.Telemetry.{validate_telemetry_schemas}
use fly_ruler_proto.Store.Valid.Messages.{
  receive_initial, run_command, append_message-command_of, command_of, StoreResult-cases,
  receive_spawn_lem,
}
use fly_ruler_proto.Store.Ingest.{
  receive_spawn, receive_command, receive_telemetry, receive_state, append_message,
}
use fly_ruler_proto.Store.Append.{
  append_state, append_event, configure, schemas_of, append_telemetry, push_state, push_event,
  push_telemetry,
}
use fly_ruler_proto.Base.Equality.{string_eq}
use fly_ruler_proto.Base.{none, some, ℕ, Option, ◌≡◌, Option-cases, Bool-cases, inl, inr}
use fly_ruler_proto.Store.{
  spawned, despawned, custom, ok, TimeSeriesStore, Event, AircraftTimeSeries, AircraftId, F64,
  entry_or_default,
}
use fly_ruler_proto.Pb.{
  AircraftCommand, spawn, despawn, state_update, custom_event, telemetry_frame, Message,
  AircraftSpawnInfo, AircraftState, TelemetryFrame,
}

-- The aircraft's registered schemas have passed the validation.
abbrev pub IsChecked : AircraftTimeSeries → Type 0
IsChecked v = validate_telemetry_schemas (schemas_of v) ≡ ok tt

abbrev pub HasCheckedSchemas : TimeSeriesStore → Type 0
HasCheckedSchemas s = AllValues IsChecked s.series

pub lookup-IsChecked :
    (s : TimeSeriesStore) (id : AircraftId) (v : AircraftTimeSeries)
    → HasCheckedSchemas s
    → lookup id s.series ≡ some v
    → IsChecked v
lookup-IsChecked s id v h e = AllValues-lookup IsChecked id v s.series h e

entry-IsChecked :
    (s : TimeSeriesStore) (id : AircraftId)
    → HasCheckedSchemas s
    → IsChecked (entry_or_default s id)
entry-IsChecked s id h = elim (Option-cases (lookup id s.series)) [
  | inl e ↦ rw e empty_schemas
  | inr (v, e) ↦ rw e (lookup-IsChecked s id v h e)
]

append_state-HasCheckedSchemas :
    (s : TimeSeriesStore) (id : AircraftId) (t : F64) (state : AircraftState)
    → HasCheckedSchemas s
    → HasCheckedSchemas (append_state s id t state)
unfolding append_state
append_state-HasCheckedSchemas s id t state h = elim (Bool-cases (is_finite t)) [
  | inl f ↦ rw f (
      AllValues-insert IsChecked id (push_state t state (entry_or_default s id)) s.series h
        (entry-IsChecked s id h))
  | inr n ↦ rw n h
]

-- Only a spawn registers schemas.
abbrev IsCheckedEvent : Event → Type 0
IsCheckedEvent (spawned info) = validate_telemetry_schemas info.telemetry_schemas ≡ ok tt
IsCheckedEvent (despawned info) = Unit
IsCheckedEvent (custom text) = Unit

configure-IsChecked :
    (event : Event) (v : AircraftTimeSeries)
    → IsCheckedEvent event
    → IsChecked v
    → IsChecked (configure event v)
configure-IsChecked (spawned info) v c h = c
configure-IsChecked (despawned info) v c h = h
configure-IsChecked (custom text) v c h = h

append_event-HasCheckedSchemas :
    (s : TimeSeriesStore) (id : AircraftId) (t : F64) (event : Event)
    → IsCheckedEvent event
    → HasCheckedSchemas s
    → HasCheckedSchemas (append_event s id t event)
unfolding append_event
append_event-HasCheckedSchemas s id t event c h = elim (Bool-cases (is_finite t)) [
  | inl f ↦ rw f (
      AllValues-insert IsChecked id (push_event t event (configure event (entry_or_default s id)))
        s.series h (configure-IsChecked event (entry_or_default s id) c (entry-IsChecked s id h)))
  | inr n ↦ rw n h
]

receive_initial-HasCheckedSchemas :
    (s : TimeSeriesStore) (now : ℕ) (id : AircraftId) (t : F64) (o : Option AircraftState)
    → HasCheckedSchemas s
    → HasCheckedSchemas (receive_initial s now id t o)
unfolding receive_initial receive_state
receive_initial-HasCheckedSchemas s now id t none h = h
receive_initial-HasCheckedSchemas s now id t (some state) h =
    append_state-HasCheckedSchemas s id t state h

receive_spawn-HasCheckedSchemas :
    (s : TimeSeriesStore) (now : ℕ) (id : AircraftId) (t : F64) (info : AircraftSpawnInfo)
    → HasCheckedSchemas s
    → HasCheckedSchemas (receive_spawn s now id t info)
unfolding receive_spawn
receive_spawn-HasCheckedSchemas s now id t info h =
    elim (StoreResult-cases (validate_telemetry_schemas info.telemetry_schemas)) [
      | inl (u, e) ↦ rw (receive_spawn_lem s now id t info e) (
          append_event-HasCheckedSchemas _ id t (spawned info) e
            (receive_initial-HasCheckedSchemas s now id t info.initial_state h))
      | inr (r, e) ↦ rw (e, receive_spawn) h
    ]

receive_telemetry-HasCheckedSchemas :
    (s : TimeSeriesStore) (id : AircraftId) (t : F64) (frame : TelemetryFrame)
    → HasCheckedSchemas s
    → HasCheckedSchemas (receive_telemetry s id t frame)
unfolding receive_telemetry
receive_telemetry-HasCheckedSchemas s id t frame h =
    elim (StoreResult-cases (append_telemetry s id t frame)) [
      | inl (s', e) ↦
          let (v, found, f, fits, done) = append_telemetry-ok s s' id t frame e in
          rw (e, receive_telemetry)
            (rw done (
              AllValues-insert IsChecked id (push_telemetry t frame v) s.series h
                (lookup-IsChecked s id v h found)))
      | inr (r, e) ↦ rw (e, receive_telemetry) h
    ]

run_command-HasCheckedSchemas :
    (s : TimeSeriesStore) (now : ℕ) (o : Option (AircraftId × F64 × AircraftCommand))
    → HasCheckedSchemas s
    → HasCheckedSchemas (run_command s now o)
unfolding receive_command receive_state
run_command-HasCheckedSchemas s now none h = h
run_command-HasCheckedSchemas s now (some (id, t, state_update state)) h =
    append_state-HasCheckedSchemas s id t state h
run_command-HasCheckedSchemas s now (some (id, t, spawn info)) h =
    receive_spawn-HasCheckedSchemas s now id t info h
run_command-HasCheckedSchemas s now (some (id, t, despawn info)) h =
    append_event-HasCheckedSchemas s id t (despawned info) tt h
run_command-HasCheckedSchemas s now (some (id, t, custom_event text)) h =
    append_event-HasCheckedSchemas s id t (custom text) tt h
run_command-HasCheckedSchemas s now (some (id, t, telemetry_frame frame)) h =
    receive_telemetry-HasCheckedSchemas s id t frame h

-- If the schemas that each aircraft of the store has registered pass the validation, they do so
-- after any message is handled, whatever the message holds.
pub append_message-HasCheckedSchemas :
    (s : TimeSeriesStore) (now : ℕ) (msg : Message)
    → HasCheckedSchemas s
    → HasCheckedSchemas (append_message s now msg)
append_message-HasCheckedSchemas s now msg h =
    rw (append_message-command_of s now msg)
      (run_command-HasCheckedSchemas s now (command_of msg) h)
