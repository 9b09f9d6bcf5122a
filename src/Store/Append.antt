-- ===== src/Store/Append.antt =====
-- `append_state`, `append_event` and `append_telemetry` of `core/src/store.rs`.
use fly_ruler_proto.Base.Equality.{string_eq}
use fly_ruler_proto.Base.{none, some, List, [], if◌then◌else◌, unwrap_or, map_option}
use fly_ruler_proto.Base.Dict.{lookup}
use fly_ruler_proto.Float.{F64, is_finite}
use fly_ruler_proto.Pb.{AircraftState, TelemetryStreamSchema, TelemetryFrame, AircraftSpawnInfo}
use fly_ruler_proto.Timeline.{append_sorted}
use fly_ruler_proto.Store.{
  AircraftId, AircraftConfig, Event, spawned, despawned, custom, state_time, event_time,
  telemetry_time, AircraftTimeSeries, TimeSeriesStore, timestamp_not_finite, aircraft_not_found,
  invalid_data, StoreResult, ok, err, require, entry_or_default, set_series, ◌>>◌,
}
use fly_ruler_proto.Store.Telemetry.{validate_telemetry_frame}

abbrev pub push_state : F64 → AircraftState → AircraftTimeSeries → AircraftTimeSeries
push_state t state v = record v {
  states = append_sorted state_time (record { timestamp_secs = t; state = state }) v.states;
}

-- A state with a non-finite time is ignored.
unfoldable pub append_state : TimeSeriesStore → AircraftId → F64 → AircraftState → TimeSeriesStore
append_state s id t state =
    if is_finite t then set_series s id (push_state t state (entry_or_default s id)) else s

abbrev pub config_of : AircraftSpawnInfo → AircraftConfig
config_of i = record {
  name = i.name;
  toml_config = i.toml_config;
  telemetry_schemas = i.telemetry_schemas;
}

-- `if let Event::Spawn(spawn) = &event { series.config = … }`.
abbrev pub configure : Event → AircraftTimeSeries → AircraftTimeSeries
configure (spawned i) v = record v { config = some (config_of i) }
configure (despawned i) v = v
configure (custom c) v = v

abbrev pub push_event : F64 → Event → AircraftTimeSeries → AircraftTimeSeries
push_event t event v = record v {
  events = append_sorted event_time (record { timestamp_secs = t; event = event }) v.events;
}

unfoldable pub append_event : TimeSeriesStore → AircraftId → F64 → Event → TimeSeriesStore
append_event s id t event =
    if is_finite t
    then set_series s id (push_event t event (configure event (entry_or_default s id)))
    else s

-- The schemas that the configuration registers, none without a configuration.
abbrev pub schemas_of : AircraftTimeSeries → List TelemetryStreamSchema
schemas_of v = unwrap_or (map_option (λ c. c.telemetry_schemas) v.config) []

abbrev pub push_telemetry : F64 → TelemetryFrame → AircraftTimeSeries → AircraftTimeSeries
push_telemetry t frame v = record v {
  telemetry =
      append_sorted telemetry_time (record { timestamp_secs = t; frame = frame }) v.telemetry;
}

-- The store is changed last, so an error leaves it as it was.
unfoldable pub append_telemetry :
    TimeSeriesStore → AircraftId → F64 → TelemetryFrame → StoreResult TimeSeriesStore
append_telemetry s id t frame = do
  require (is_finite t) timestamp_not_finite
  elim (lookup id s.series) [
    | none ↦ err (invalid_data (aircraft_not_found id))
    | some v ↦ do
      validate_telemetry_frame (schemas_of v) frame
      ok (set_series s id (push_telemetry t frame v))
  ]
