-- ===== src/Series/Answer.antt =====
-- What a query of `core/src/management/series.rs` promises of one selection: the points of the range
-- by a scan of all samples of the aircraft, in the request's order, without groups or slots.
use fly_ruler_proto.Store.Append.{schemas_of}
use fly_ruler_proto.Series.Fields.{telemetry_field, extract_value}
use fly_ruler_proto.Series.Query.{finite_point, series_data, frame_value}
use fly_ruler_proto.Base.Dict.{lookup}
use fly_ruler_proto.Series.Sample.{lttb}
use fly_ruler_proto.Store.{
  AircraftTimeSeries, TimeSeriesStore, TimestampedState, TimestampedTelemetryFrame, state_time,
  entry_or_default, telemetry_time,
}
use fly_ruler_proto.Pb.{TelemetryStreamSchema}
use fly_ruler_proto.Base.Equality.{string_eq}
use fly_ruler_proto.Base.{none, some, List, ℕ, Option, ◌∷◌, [], ◌++◌}
use fly_ruler_proto.Timeline.{Outcome, value, panic, range_filter}
use fly_ruler_proto.Series.{
  SeriesSelector, standard, propulsor, telemetry, aircraft_not_found, unknown_telemetry_field, F64,
  Point, SeriesSelection, SeriesData, SeriesError,
}
use fly_ruler_proto.Series.Arithmetic.{Arithmetic}

module _ (a : Arithmetic) where
  unfoldable pub state_points : SeriesSelector → List TimestampedState → List Point
  state_points x [] = []
  state_points x (s ∷ states) =
      finite_point s.timestamp_secs (extract_value a s.state x) ++ state_points x states

  unfoldable pub frame_points :
      TelemetryStreamSchema → ℕ → List TimestampedTelemetryFrame → List Point
  frame_points schema index [] = []
  frame_points schema index (s ∷ frames) =
      finite_point s.timestamp_secs (frame_value a schema index s)
      ++ frame_points schema index frames

  abbrev pub telemetry_points :
      List TelemetryStreamSchema → SeriesSelector → List TimestampedTelemetryFrame → List Point
  telemetry_points schemas (standard path) frames = []
  telemetry_points schemas (propulsor id field) frames = []
  telemetry_points schemas (telemetry stream field) frames =
      elim (telemetry_field schemas stream field) [
        | none ↦ []
        | some (schema, index) ↦ frame_points schema index frames
      ]

  -- All points of a selection in the range.
  unfoldable pub points_of : AircraftTimeSeries → F64 → F64 → SeriesSelector → List Point
  unfolding state_points frame_points
  points_of v start end x =
      state_points x (range_filter state_time start end v.states)
      ++ telemetry_points (schemas_of v) x (range_filter telemetry_time start end v.telemetry)

  abbrev value_or_nil : Outcome (List Point) → List Point
  value_or_nil (value points) = points
  value_or_nil panic = []

  abbrev pub sampled : List Point → ℕ → List Point
  sampled full max_points = value_or_nil (lttb a full max_points)

  unfoldable pub series_of : TimeSeriesStore → F64 → F64 → ℕ → SeriesSelection → SeriesData
  unfolding points_of
  series_of s start end max_points x =
      let full = points_of (entry_or_default s x.aircraft_id) start end x.selector in
      series_data x.aircraft_id x.selector full (sampled full max_points)

-- Why a selection cannot be answered, if so.
abbrev pub missing_field : List TelemetryStreamSchema → SeriesSelector → Option SeriesError
missing_field schemas (standard path) = none
missing_field schemas (propulsor id field) = none
missing_field schemas (telemetry stream field) = elim (telemetry_field schemas stream field) [
  | none ↦ some (unknown_telemetry_field stream field)
  | some found ↦ none
]

unfoldable pub refusal : TimeSeriesStore → SeriesSelection → Option SeriesError
refusal s x = elim (lookup x.aircraft_id s.series) [
  | none ↦ some (aircraft_not_found x.aircraft_id)
  | some v ↦ missing_field (schemas_of v) x.selector
]
