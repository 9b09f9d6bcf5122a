-- ===== src/Store/Frames.antt =====
-- The telemetry that `core/src/store.rs` lets into a store.
use fly_ruler_proto.Store.Schemas.{HasCheckedSchemas, lookup-IsChecked}
use fly_ruler_proto.Store.Telemetry.Registered.{find_schema_self}
use fly_ruler_proto.Store.Telemetry.{find_schema}
use fly_ruler_proto.Store.Telemetry.Checked.{
  DoFit-validate_telemetry_frame, DoFit, validate_telemetry_frame-DoFit,
}
use fly_ruler_proto.Float.{is_finite, F64}
use fly_ruler_proto.Base.Equality.{string_eq}
use fly_ruler_proto.Base.{◌≡◌, some, Any, true, subst, ◌↔◌, ap, sym}
use fly_ruler_proto.Base.Dict.{lookup}
use fly_ruler_proto.Pb.{TelemetryStreamSchema, TelemetryFrame}
use fly_ruler_proto.Store.{AircraftId, AircraftTimeSeries, TimeSeriesStore, ok, set_series}
use fly_ruler_proto.Store.Append.{schemas_of, push_telemetry, append_telemetry}
use fly_ruler_proto.Store.Valid.Steps.{append_telemetry-ok}

-- A finite time, an aircraft of the store that has registered a schema of the frame's stream, as many
-- values as this has fields, each of its field's type; and the store with the frame put into the
-- telemetry of that aircraft.
abbrev pub IsAccepted :
    TimeSeriesStore → AircraftId → F64 → TelemetryFrame → TimeSeriesStore → Type 0
IsAccepted s id t frame s' =
    (v : AircraftTimeSeries) × (schema : TelemetryStreamSchema) × (is_finite t ≡ true)
    × (lookup id s.series ≡ some v)
    × Any (λ x. x ≡ schema) (schemas_of v)
    × (schema.stream_id ≡ frame.stream_id)
    × DoFit schema.fields frame.values
    × (s' ≡ set_series s id (push_telemetry t frame v))

accepted :
    (s s' : TimeSeriesStore) (id : AircraftId) (t : F64) (frame : TelemetryFrame)
    → append_telemetry s id t frame ≡ ok s'
    → IsAccepted s id t frame s'
accepted s s' id t frame e =
    let (v, found, finite, valid, stored) = append_telemetry-ok s s' id t frame e in
    let (schema, registered, named, fits) =
      validate_telemetry_frame-DoFit (schemas_of v) frame valid in
    (v, schema, finite, found, registered, named, fits, stored)

acceptable :
    (s s' : TimeSeriesStore) (id : AircraftId) (t : F64) (frame : TelemetryFrame)
    → HasCheckedSchemas s
    → IsAccepted s id t frame s'
    → append_telemetry s id t frame ≡ ok s'
unfolding append_telemetry
acceptable s s' id t frame h (v, schema, finite, found, registered, named, fits, stored) =
    let finds : find_schema frame.stream_id (schemas_of v) ≡ some schema =
      subst (λ n. find_schema n (schemas_of v) ≡ some schema) named
        (find_schema_self (schemas_of v) schema (lookup-IsChecked s id v h found) registered) in
    let valid = DoFit-validate_telemetry_frame (schemas_of v) frame schema finds fits in
    rw (finite, found, valid) (ap ok (sym stored))

-- In a store whose registered schemas have passed the validation, a telemetry frame is accepted,
-- with a given store as the result, exactly if its time is finite, the store has the aircraft, a
-- schema of the same stream is among those of its configuration, the frame has as many values as
-- that schema has fields, each a 64-bit float, a 64-bit integer or a Boolean as its field
-- declares, and the result is the store with the frame put into the telemetry of that aircraft at
-- its time.
pub append_telemetry-IsAccepted :
    (s s' : TimeSeriesStore) (id : AircraftId) (t : F64) (frame : TelemetryFrame)
    → HasCheckedSchemas s
    → (append_telemetry s id t frame ≡ ok s') ↔ IsAccepted s id t frame s'
append_telemetry-IsAccepted s s' id t frame h =
    (accepted s s' id t frame, acceptable s s' id t frame h)
