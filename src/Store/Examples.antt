-- ===== src/Store/Examples.antt =====
-- The theorems on `core/src/store.rs` at concrete stores.
use fly_ruler_proto.Base.{
  ◌↔◌, ◌≤◌, ◌≡◌, refl, inr, true, false, none, some, [], ◌∷◌, arith, unwrap_or, map_option, length,
  get_last?,
}
use fly_ruler_proto.Store.Telemetry.{
  validate_telemetry_schemas, validate_schemas, validate_fields, is_blank, contains, has_value_type,
  find_schema, value_fits, validate_values, validate_telemetry_frame,
}
use fly_ruler_proto.Store.Schemas.{HasCheckedSchemas, append_message-HasCheckedSchemas}
use fly_ruler_proto.Base.Equality.{string_eq}
use fly_ruler_proto.Base.Dict.{lookup, insert}
use fly_ruler_proto.Float.{F64, plus, is_finite, le}
use fly_ruler_proto.Pb.{
  AircraftState, AircraftSpawnInfo, state_update, aircraft_event, request, Message, TelemetryFrame,
  TelemetryStreamSchema, f64_value, spawn,
}
use fly_ruler_proto.Timeline.{value, append_sorted}
use fly_ruler_proto.Store.{
  AircraftId, spawned, despawned, empty_series, TimeSeriesStore, entry_or_default, new_store, ok,
  set_series, AircraftTimeSeries,
}
use fly_ruler_proto.Store.Append.{append_state, append_event, push_telemetry, append_telemetry}
use fly_ruler_proto.Store.Ingest.{append_message}
use fly_ruler_proto.Store.Query.{
  u64_max, get_state_at_or_before, is_spawned_at, get_states_range, get_states_page,
  get_events_range, get_events_page,
}
use fly_ruler_proto.Store.Summary.{active_time_bounds}
use fly_ruler_proto.Store.Summary.Ends.{all_sample_times, IsRange}
use fly_ruler_proto.Store.Summary.Bounds.{active_time_bounds-IsRange}
use fly_ruler_proto.Store.Adjacent.{state_entry, adjacent_global_timestamp}
use fly_ruler_proto.Store.Adjacent.Nearest.{IsAdjacent}
use fly_ruler_proto.Store.Adjacent.Global.{all_times, adjacent_global_timestamp-IsAdjacent}
use fly_ruler_proto.Store.Adjacent.Steps.{adjacent_global_timestamp-suc}
use fly_ruler_proto.Store.Contents.{
  snapshot_clone, replace_from, HasDistinctIds, replace_from-snapshot_clone,
}
use fly_ruler_proto.Store.Pages.{
  page_of, get_states_page-get_states_range, get_events_page-get_events_range,
}
use fly_ruler_proto.Store.Frames.{append_telemetry-IsAccepted, IsAccepted}
use fly_ruler_proto.Base.Int.{pos}
use fly_ruler_proto.Store.Reads.{
  states_up_to, get_state_at_or_before_lem, get_state_at_or_before-append_state,
  get_state_at_or_before-append_state_elsewhere,
}
use fly_ruler_proto.Store.Lifecycle.{
  events_up_to, is_spawned_at-Decide, Decide, is_spawned_at-append_event,
}
use fly_ruler_proto.Store.Valid.Steps.{IsValid, append_state-IsValid, append_event-IsValid}
use fly_ruler_proto.Store.Valid.Messages.{append_message-IsValid}

-- 1.0, 1.5 and 2.0.
abbrev one : F64
one = plus 0x3ff0_0000_0000_0000

abbrev one_half : F64
one_half = plus 0x3ff8_0000_0000_0000

abbrev two : F64
two = plus 0x4000_0000_0000_0000

-- "a" and "b".
abbrev first_id : AircraftId
first_id = b'a' ∷ []

abbrev second_id : AircraftId
second_id = b'b' ∷ []

abbrev blank_state : AircraftState
blank_state = record {
  position = none;
  velocity = none;
  attitude = none;
  angular_velocity = none;
  derived = none;
  control_surfaces = none;
  linear_acceleration_body = none;
  propulsors = [];
}

abbrev spawn_info : AircraftSpawnInfo
spawn_info = record {
  name = b'n' ∷ [];
  toml_config = [];
  initial_state = none;
  telemetry_schemas = [];
}

-- A spawned aircraft with states at 2.0 and 1.0, which came in out of order.
abbrev flown : TimeSeriesStore
flown =
    append_state
      (append_state (append_event new_store first_id one (spawned spawn_info)) first_id two
        blank_state)
      first_id one blank_state

pub flown-IsValid : IsValid flown
flown-IsValid = append_state-IsValid _ first_id one blank_state (
    append_state-IsValid _ first_id two blank_state
      (append_event-IsValid new_store first_id one (spawned spawn_info) tt))

finite_one : is_finite one ≡ true
unfolding is_finite
finite_one = refl

finite_one_half : is_finite one_half ≡ true
unfolding is_finite
finite_one_half = refl

one-le-two : le one two ≡ true
unfolding le
one-le-two = refl

later : le one_half one ≡ false
unfolding le
later = refl

abbrev state_message : Message
state_message = record {
  envelope = some (
      request (record {
        id = none;
        timestamp = one_half;
        command = some (record {
          kind = some (
              aircraft_event (record {
                aircraft_id = some (record { bytes = 0xab ∷ [] });
                info = some (record { kind = some (state_update blank_state) });
              }));
        });
      }));
}

append_message-IsValid_example : IsValid (append_message flown 7 state_message)
append_message-IsValid_example = append_message-IsValid flown 7 state_message flown-IsValid

get_state_at_or_before-append_state_example :
    get_state_at_or_before (append_state flown first_id one_half blank_state) first_id one_half
    ≡ some (record { timestamp_secs = one_half; state = blank_state })
get_state_at_or_before-append_state_example =
    get_state_at_or_before-append_state flown first_id one_half blank_state flown-IsValid
      finite_one_half

get_state_at_or_before-append_state_elsewhere_example :
    get_state_at_or_before (append_state flown first_id one_half blank_state) first_id one
    ≡ get_state_at_or_before flown first_id one
get_state_at_or_before-append_state_elsewhere_example =
    get_state_at_or_before-append_state_elsewhere flown first_id first_id one_half one blank_state
      flown-IsValid finite_one_half (inr later)

get_state_at_or_before_lem_example :
    get_state_at_or_before flown first_id one_half
    ≡ get_last? (states_up_to flown first_id one_half)
get_state_at_or_before_lem_example =
    get_state_at_or_before_lem flown first_id one_half flown-IsValid finite_one_half

is_spawned_at-append_event_example :
    is_spawned_at
      (append_event flown first_id one_half (despawned (record { reason = none })))
      first_id
      one_half
    ≡ unwrap_or (some false) (is_spawned_at flown first_id one_half)
is_spawned_at-append_event_example =
    is_spawned_at-append_event flown first_id one_half (despawned (record { reason = none }))
      flown-IsValid finite_one_half

is_spawned_at-Decide_example :
    Decide (events_up_to flown first_id one_half) (is_spawned_at flown first_id one_half)
is_spawned_at-Decide_example =
    is_spawned_at-Decide flown first_id one_half flown-IsValid finite_one_half

active_time_bounds-IsRange_example :
    IsRange (active_time_bounds flown) (all_sample_times flown.series)
active_time_bounds-IsRange_example = active_time_bounds-IsRange flown flown-IsValid

adjacent_global_timestamp-IsAdjacent_example :
    IsAdjacent true one
      (all_times state_entry flown.series)
      (adjacent_global_timestamp flown one 1 state_entry true)
adjacent_global_timestamp-IsAdjacent_example =
    adjacent_global_timestamp-IsAdjacent flown one state_entry true flown-IsValid finite_one

adjacent_global_timestamp-suc_example :
    adjacent_global_timestamp flown one 2 state_entry true
    ≡ map_option
        (λ c. unwrap_or (adjacent_global_timestamp flown c 1 state_entry true) c)
        (adjacent_global_timestamp flown one 1 state_entry true)
adjacent_global_timestamp-suc_example =
    adjacent_global_timestamp-suc flown one 1 state_entry true flown-IsValid finite_one

few_states : length (entry_or_default flown first_id).states ≤ u64_max
unfolding append_state append_event append_sorted lookup insert is_finite le
few_states = omega arith

few_events : length (entry_or_default flown first_id).events ≤ u64_max
unfolding append_state append_event append_sorted lookup insert is_finite le
few_events = omega arith

get_states_page-get_states_range_example :
    get_states_page flown first_id one two 1 1
    ≡ value (map_option (λ xs. page_of xs 1 1) (get_states_range flown first_id one two))
get_states_page-get_states_range_example =
    get_states_page-get_states_range flown first_id one two 1 1 flown-IsValid few_states one-le-two

get_events_page-get_events_range_example :
    get_events_page flown first_id one two 0 5
    ≡ value (map_option (λ xs. page_of xs 0 5) (get_events_range flown first_id one two))
get_events_page-get_events_range_example =
    get_events_page-get_events_range flown first_id one two 0 5 flown-IsValid few_events one-le-two

abbrev two_ids : TimeSeriesStore
two_ids = record {
  series = (first_id, empty_series) ∷ (second_id, empty_series) ∷ [];
  live_state_receipts = (first_id, 3) ∷ [];
}

two_ids-HasDistinctIds : HasDistinctIds two_ids
unfolding lookup
two_ids-HasDistinctIds = (refl, (refl, tt))

replace_from-snapshot_clone_example :
    (snapshot_clone two_ids ≡ record two_ids { live_state_receipts = [] })
    × (replace_from false new_store (snapshot_clone two_ids) ≡ snapshot_clone two_ids)
replace_from-snapshot_clone_example =
    replace_from-snapshot_clone two_ids new_store two_ids-HasDistinctIds

-- A stream "s" with one field of 64-bit floats.
abbrev schema : TelemetryStreamSchema
schema = record {
  stream_id = b's' ∷ [];
  name = [];
  nominal_rate_hz = none;
  fields =
      record {
        field_id = b'f' ∷ [];
        label = [];
        group = [];
        unit = [];
        description = [];
        value_type = pos 1;
      }
      ∷ [];
}

abbrev measured : TelemetryFrame
measured = record {
  stream_id = b's' ∷ [];
  sequence = 0;
  values = record { kind = some (f64_value two) } ∷ [];
}

abbrev instrumented : AircraftTimeSeries
instrumented = record empty_series {
  config = some (record { name = []; toml_config = []; telemetry_schemas = schema ∷ [] });
}

abbrev ready : TimeSeriesStore
ready = record { series = (first_id, instrumented) ∷ []; live_state_receipts = [] }

abbrev recorded : TimeSeriesStore
recorded = set_series ready first_id (push_telemetry one measured instrumented)

measured-recorded : append_telemetry ready first_id one measured ≡ ok recorded
unfolding append_telemetry lookup is_finite validate_telemetry_frame find_schema validate_values
    value_fits
measured-recorded = refl

ready-HasCheckedSchemas : HasCheckedSchemas ready
unfolding validate_telemetry_schemas validate_schemas validate_fields is_blank contains
    has_value_type
ready-HasCheckedSchemas = (refl, tt)

append_telemetry-IsAccepted_example :
    (append_telemetry ready first_id one measured ≡ ok recorded)
    ↔ IsAccepted ready first_id one measured recorded
append_telemetry-IsAccepted_example =
    append_telemetry-IsAccepted ready recorded first_id one measured ready-HasCheckedSchemas

-- "a" spawns with a telemetry stream.
abbrev spawn_message : Message
spawn_message = record {
  envelope = some (
      request (record {
        id = none;
        timestamp = one_half;
        command = some (record {
          kind = some (
              aircraft_event (record {
                aircraft_id = some (record { bytes = 0xab ∷ [] });
                info = some (record {
                  kind = some (spawn (record spawn_info { telemetry_schemas = schema ∷ [] }));
                });
              }));
        });
      }));
}

append_message-HasCheckedSchemas_example :
    HasCheckedSchemas (append_message new_store 7 spawn_message)
append_message-HasCheckedSchemas_example =
    append_message-HasCheckedSchemas new_store 7 spawn_message tt
