-- ===== src/Series/Query.antt =====
-- `query` of `core/src/management/series.rs`: the selections grouped by aircraft, one pass over the
-- states and one over the telemetry of each, and the results in the order of the request.
use fly_ruler_proto.Store.Summary.{str_lt}
use fly_ruler_proto.Float.{plus, is_finite, minus, infinity_bits, is_nan, lt}
use fly_ruler_proto.Series.Sample.{then_outcome, lttb, stats}
use fly_ruler_proto.Series.Fields.{
  telemetry_field, validate_selector, extract_value, telemetry_numeric,
}
use fly_ruler_proto.Base.{
  ◌∷◌, unwrap_or, [], map, map_option, if◌then◌else◌, ◌++◌, length, some, ◌+◌, none, suc, ◌&&◌,
  and_then, eqb, zero, get_elem?, ◌||◌, ltb, not, leb,
}
use fly_ruler_proto.Pb.{TelemetryStreamSchema}
use fly_ruler_proto.Store.{TimestampedState, TimeSeriesStore, TimestampedTelemetryFrame}
use fly_ruler_proto.Base.Equality.{string_eq, Str, ◌==◌}
use fly_ruler_proto.Base.Text.{str}
use fly_ruler_proto.Timeline.{Outcome, value, panic, map_outcome}
use fly_ruler_proto.Store.Query.{visit_states_range, visit_telemetry_range, get_telemetry_schemas}
use fly_ruler_proto.Series.{
  SeriesSelector, standard, propulsor, telemetry, SeriesResult, ok, err, aircraft_not_found,
  invalid_selection_count, invalid_max_points, invalid_time_range, unknown_telemetry_field, List, ℕ,
  F64, SeriesQueryRequest, Option, SeriesData, SeriesSelection, SeriesQueryResponse, Point,
  SeriesError, default_max_points, selector_key, max_selections, min_max_points, max_max_points,
}
use fly_ruler_proto.Series.Arithmetic.{Arithmetic}

-- An entry of a group: a selection's place in the request and its selector.
abbrev pub Slot : Type 0
Slot = ℕ × SeriesSelector

-- `grouped.entry(aircraft_id).or_default().push(…)`, the map in ascending order.
unfoldable pub push_entry : Str → Slot → List (Str × List Slot) → List (Str × List Slot)
push_entry id x [] = (id, x ∷ []) ∷ []
push_entry id x ((other, xs) ∷ groups) =
    if other == id
    then (other, xs ++ x ∷ []) ∷ groups
    else if str_lt id other
    then (id, x ∷ []) ∷ (other, xs) ∷ groups
    else (other, xs) ∷ push_entry id x groups

unfoldable pub group_selections :
    ℕ → List SeriesSelection → List (Str × List Slot) → List (Str × List Slot)
unfolding push_entry
group_selections index [] groups = groups
group_selections index (x ∷ xs) groups =
    group_selections (index + 1) xs (push_entry x.aircraft_id (index, x.selector) groups)

-- The points that a sample adds to a series: at most one, and only finite ones.
abbrev pub finite_point : F64 → Option F64 → List Point
finite_point t none = []
finite_point t (some x) = if is_finite t && is_finite x then (t, x) ∷ [] else []

unfoldable pub validate_selectors : List SeriesSelection → SeriesResult (Unit {0})
validate_selectors [] = ok tt
validate_selectors (x ∷ xs) = elim (validate_selector x.selector) [
  | ok _ ↦ validate_selectors xs
  | err e ↦ err e
]

-- The first telemetry selector that no registered schema has.
unfoldable pub unregistered : List TelemetryStreamSchema → List Slot → Option SeriesError
unregistered schemas [] = none
unregistered schemas ((index, standard path) ∷ entries) = unregistered schemas entries
unregistered schemas ((index, propulsor id field) ∷ entries) = unregistered schemas entries
unregistered schemas ((index, telemetry stream field) ∷ entries) =
    elim (telemetry_field schemas stream field) [
      | none ↦ some (unknown_telemetry_field stream field)
      | some found ↦ unregistered schemas entries
    ]

abbrev pub series_data : Str → SeriesSelector → List Point → List Point → SeriesData
series_data id selector full sampled = record {
  key = id ++ (str "::" ++ selector_key selector);
  aircraft_id = id;
  selector = selector;
  points = sampled;
  total_points = length full;
  returned_points = length sampled;
  stats = stats full;
}

-- `output[index] = Some(data)`.
unfoldable pub write_output :
    ℕ → SeriesData → List (Option SeriesData) → Outcome (List (Option SeriesData))
write_output index d [] = panic
write_output zero d (o ∷ output) = value (some d ∷ output)
write_output (suc index) d (o ∷ output) = map_outcome (◌∷◌ o) (write_output index d output)

abbrev pub no_points : List Slot → List (List Point)
no_points entries = map (λ e. []) entries

-- `into_iter().flatten()`.
unfoldable pub flatten : List (Option SeriesData) → List SeriesData
flatten [] = []
flatten (none ∷ output) = flatten output
flatten (some d ∷ output) = d ∷ flatten output

abbrev pub range_start : SeriesQueryRequest → F64
range_start r = unwrap_or (map_option (λ t. t.start) r.time_range) (minus infinity_bits)

abbrev pub range_end : SeriesQueryRequest → F64
range_end r = unwrap_or (map_option (λ t. t.end) r.time_range) (plus infinity_bits)

module _ (a : Arithmetic) where
  -- The inner loop over the slots, for one state.
  unfoldable pub push_state_values :
      TimestampedState → List Slot → List (List Point) → List (List Point)
  push_state_values s (e ∷ entries) (p ∷ points) =
      (p ++ finite_point s.timestamp_secs (extract_value a s.state e.1))
      ∷ push_state_values s entries points
  push_state_values s entries points = []

  unfoldable pub visit_states :
      List TimestampedState → List Slot → List (List Point) → List (List Point)
  unfolding push_state_values
  visit_states [] entries points = points
  visit_states (s ∷ states) entries points =
      visit_states states entries (push_state_values s entries points)

  -- What a frame adds to the series of a field: nothing if it is of another stream.
  abbrev pub frame_value : TelemetryStreamSchema → ℕ → TimestampedTelemetryFrame → Option F64
  frame_value schema index s =
      if s.frame.stream_id == schema.stream_id
      then and_then (get_elem? s.frame.values index) (telemetry_numeric a)
      else none

  unfoldable pub push_frames :
      TelemetryStreamSchema → ℕ → List TimestampedTelemetryFrame → List Point → List Point
  push_frames schema index [] p = p
  push_frames schema index (s ∷ frames) p =
      push_frames schema index frames
        (p ++ finite_point s.timestamp_secs (frame_value schema index s))

  abbrev pub push_telemetry_values :
      List TelemetryStreamSchema
      → List TimestampedTelemetryFrame
      → SeriesSelector
      → List Point
      → List Point
  push_telemetry_values schemas frames (standard path) p = p
  push_telemetry_values schemas frames (propulsor id field) p = p
  push_telemetry_values schemas frames (telemetry stream field) p =
      elim (telemetry_field schemas stream field) [
        | none ↦ p
        | some (schema, index) ↦ push_frames schema index frames p
      ]

  unfoldable pub visit_telemetry :
      List TelemetryStreamSchema
      → List TimestampedTelemetryFrame
      → List Slot
      → List (List Point)
      → List (List Point)
  unfolding push_frames
  visit_telemetry schemas frames (e ∷ entries) (p ∷ points) =
      push_telemetry_values schemas frames e.1 p ∷ visit_telemetry schemas frames entries points
  visit_telemetry schemas frames entries points = []

  unfoldable pub write_outputs :
      Str
      → ℕ
      → List Slot
      → List (List Point)
      → List (Option SeriesData)
      → Outcome (List (Option SeriesData))
  unfolding write_output
  write_outputs id max_points (e ∷ entries) (full ∷ points) output =
      then_outcome (lttb a full max_points) (λ sampled.
        then_outcome (write_output e.0 (series_data id e.1 full sampled) output)
          (λ written. write_outputs id max_points entries points written))
  write_outputs id max_points entries points output = value output

  -- The body of the loop over the groups.
  unfoldable pub answer_group :
      TimeSeriesStore
      → F64
      → F64
      → ℕ
      → Str
      → List Slot
      → List (Option SeriesData)
      → Outcome (SeriesResult (List (Option SeriesData)))
  unfolding visit_states visit_telemetry write_outputs unregistered
  answer_group s start end max_points id entries output =
      then_outcome
        (visit_states_range s id start end
          (λ states. visit_states states entries (no_points entries)))
        λ found. elim found [
          | none ↦ value (err (aircraft_not_found id))
          | some points ↦ elim (get_telemetry_schemas s id) [
            | none ↦ value (err (aircraft_not_found id))
            | some schemas ↦ elim (unregistered schemas entries) [
              | some e ↦ value (err e)
              | none ↦
                  then_outcome
                    (visit_telemetry_range s id start end
                      (λ frames. visit_telemetry schemas frames entries points))
                    (λ visited.
                      map_outcome ok
                        (write_outputs id max_points entries (unwrap_or visited points) output))
            ]
          ]
        ]

  unfoldable pub answer_groups :
      TimeSeriesStore
      → F64
      → F64
      → ℕ
      → List (Str × List Slot)
      → List (Option SeriesData)
      → Outcome (SeriesResult (List (Option SeriesData)))
  unfolding answer_group
  answer_groups s start end max_points [] output = value (ok output)
  answer_groups s start end max_points ((id, entries) ∷ groups) output =
      then_outcome (answer_group s start end max_points id entries output) λ result. elim result [
        | err e ↦ value (err e)
        | ok written ↦ answer_groups s start end max_points groups written
      ]

  unfoldable pub query :
      TimeSeriesStore → SeriesQueryRequest → Outcome (SeriesResult SeriesQueryResponse)
  unfolding answer_groups group_selections flatten validate_selectors
  query s r =
      let count = length r.selections in
      let max_points = unwrap_or r.max_points default_max_points in
      let start = range_start r in
      let end = range_end r in
      if eqb count 0 || ltb max_selections count
      then value (err invalid_selection_count)
      else if not (leb min_max_points max_points && leb max_points max_max_points)
      then value (err invalid_max_points)
      else if is_nan start || (is_nan end || lt end start)
      then value (err invalid_time_range)
      else elim (validate_selectors r.selections) [
        | err e ↦ value (err e)
        | ok _ ↦
            then_outcome
              (answer_groups s start end max_points (group_selections 0 r.selections [])
                (map (λ x. none) r.selections))
              λ result. elim result [
                | err e ↦ value (err e)
                | ok output ↦ value (ok (record { series = flatten output }))
              ]
      ]
