-- ===== src/Series/Catalog.antt =====
-- `catalog` of `core/src/management/series.rs`: the selectable series of an aircraft.
use fly_ruler_proto.Float.{minus, infinity_bits, plus}
use fly_ruler_proto.Store.Summary.{str_lt}
use fly_ruler_proto.Series.Fields.{
  find_field, standard_fields, StandardField, telemetry_field, extract_value, propulsor_value,
}
use fly_ruler_proto.Store.{TimeSeriesStore, TimestampedState}
use fly_ruler_proto.Base.{
  Bool, Option, ◌∷◌, if◌then◌else◌, is_some_and, none, [], true, false, some, ◌++◌, ◌||◌, get_elem?,
  unwrap_or, ◌&&◌, ltb,
}
use fly_ruler_proto.Pb.{AircraftState, PropulsorState, TelemetryField, TelemetryStreamSchema}
use fly_ruler_proto.Base.Equality.{string_eq, Str, ◌==◌}
use fly_ruler_proto.Base.Text.{str}
use fly_ruler_proto.Timeline.{Outcome, value, panic, map_outcome}
use fly_ruler_proto.Store.Query.{visit_states_range, get_telemetry_schemas}
use fly_ruler_proto.Series.{
  SeriesSelector, standard, propulsor, telemetry, PropulsorField, throttle_ratio, rpm,
  blade_pitch_rad, thrust_newton, torque_newton_meter, SeriesResult, ok, err, aircraft_not_found,
  SeriesCatalogItem, List, ℕ, field_label, field_unit,
}
use fly_ruler_proto.Series.Arithmetic.{Arithmetic}

-- The derived order of the selectors: the variant, then the fields in turn.
abbrev pub field_rank : PropulsorField → ℕ
field_rank throttle_ratio = 0
field_rank rpm = 1
field_rank blade_pitch_rad = 2
field_rank thrust_newton = 3
field_rank torque_newton_meter = 4

unfoldable pub selector_lt : SeriesSelector → SeriesSelector → Bool
selector_lt (standard p) (standard q) = str_lt p q
selector_lt (standard p) (propulsor j g) = true
selector_lt (standard p) (telemetry t g) = true
selector_lt (propulsor i f) (standard q) = false
selector_lt (propulsor i f) (propulsor j g) =
    str_lt i j || (i == j && ltb (field_rank f) (field_rank g))
selector_lt (propulsor i f) (telemetry t g) = true
selector_lt (telemetry s f) (standard q) = false
selector_lt (telemetry s f) (propulsor j g) = false
selector_lt (telemetry s f) (telemetry t g) = str_lt s t || (s == t && str_lt f g)

-- A `BTreeSet` as its ascending list.
unfoldable pub insert_selector : SeriesSelector → List SeriesSelector → List SeriesSelector
insert_selector x [] = x ∷ []
insert_selector x (y ∷ ys) =
    if selector_lt x y
    then x ∷ y ∷ ys
    else if selector_lt y x
    then y ∷ insert_selector x ys
    else y ∷ ys

abbrev pub insert_if : Bool → SeriesSelector → List SeriesSelector → List SeriesSelector
insert_if present x out = if present then insert_selector x out else out

unfoldable pub collect_standard :
    Arithmetic → AircraftState → List StandardField → List SeriesSelector → List SeriesSelector
collect_standard a s [] out = out
collect_standard a s (f ∷ fs) out = collect_standard a s fs (
    insert_if (is_some_and (extract_value a s (standard f.path)) (λ v. true)) (standard f.path) out)

unfoldable pub collect_propulsor :
    PropulsorState → List PropulsorField → List SeriesSelector → List SeriesSelector
collect_propulsor p [] out = out
collect_propulsor p (f ∷ fs) out =
    collect_propulsor p fs
      (insert_if (is_some_and (propulsor_value p f) (λ v. true)) (propulsor p.propulsor_id f) out)

abbrev pub all_propulsor_fields : List PropulsorField
all_propulsor_fields =
    throttle_ratio ∷ rpm ∷ blade_pitch_rad ∷ thrust_newton ∷ torque_newton_meter ∷ []

unfoldable pub collect_propulsors : List PropulsorState → List SeriesSelector → List SeriesSelector
unfolding collect_propulsor
collect_propulsors [] out = out
collect_propulsors (p ∷ ps) out =
    collect_propulsors ps (collect_propulsor p all_propulsor_fields out)

unfoldable pub collect_state_selectors :
    Arithmetic → AircraftState → List SeriesSelector → List SeriesSelector
unfolding collect_standard collect_propulsors
collect_state_selectors a s out =
    collect_propulsors s.propulsors (collect_standard a s standard_fields out)

unfoldable pub collect_samples :
    Arithmetic → List TimestampedState → List SeriesSelector → List SeriesSelector
collect_samples a [] out = out
collect_samples a (s ∷ states) out =
    collect_samples a states (collect_state_selectors a s.state out)

unfoldable pub collect_fields :
    Str → List TelemetryField → List SeriesSelector → List SeriesSelector
collect_fields stream [] out = out
collect_fields stream (f ∷ fs) out =
    collect_fields stream fs (insert_selector (telemetry stream f.field_id) out)

unfoldable pub collect_schemas :
    List TelemetryStreamSchema → List SeriesSelector → List SeriesSelector
unfolding collect_fields
collect_schemas [] out = out
collect_schemas (s ∷ schemas) out =
    collect_schemas schemas (collect_fields s.stream_id s.fields out)

-- `expect` panics on a path that no standard field has.
unfoldable pub catalog_item : SeriesSelector → Outcome SeriesCatalogItem
catalog_item (standard path) = elim (find_field path standard_fields) [
  | none ↦ panic
  | some f ↦
      value (record { selector = standard path; group = f.group; label = f.label; unit = f.unit })
]
catalog_item (propulsor id field) = value (record {
  selector = propulsor id field;
  group = str "propulsors";
  label = id ++ (str " " ++ field_label field);
  unit = some (field_unit field);
})
catalog_item (telemetry stream field) =
    value (record { selector = telemetry stream field; group = stream; label = field; unit = none })

abbrev if_empty : Str → Str → Str
if_empty [] other = other
if_empty (c ∷ text) other = c ∷ text

abbrev non_empty : Str → Option Str
non_empty [] = none
non_empty (c ∷ text) = some (c ∷ text)

abbrev pub telemetry_item : Str → Str → TelemetryStreamSchema → TelemetryField → SeriesCatalogItem
telemetry_item stream field schema f = record {
  selector = telemetry stream field;
  group = if_empty f.group schema.name;
  label = if_empty f.label f.field_id;
  unit = non_empty f.unit;
}

-- The closure of `catalog`; `expect` and the index of the field panic.
unfoldable pub described_item :
    List TelemetryStreamSchema → SeriesSelector → Outcome SeriesCatalogItem
described_item schemas (standard path) = catalog_item (standard path)
described_item schemas (propulsor id field) = catalog_item (propulsor id field)
described_item schemas (telemetry stream field) = elim (telemetry_field schemas stream field) [
  | none ↦ panic
  | some (schema, index) ↦ elim (get_elem? schema.fields index) [
    | none ↦ panic
    | some f ↦ value (telemetry_item stream field schema f)
  ]
]

-- `map` and `collect`, of a closure that may panic.
unfoldable pub described_items :
    List TelemetryStreamSchema → List SeriesSelector → Outcome (List SeriesCatalogItem)
described_items schemas [] = value []
described_items schemas (x ∷ xs) = elim (described_item schemas x) [
  | panic ↦ panic
  | value i ↦ map_outcome (◌∷◌ i) (described_items schemas xs)
]

unfoldable pub catalog :
    Arithmetic → TimeSeriesStore → Str → Outcome (SeriesResult (List SeriesCatalogItem))
catalog a s id =
    elim (visit_states_range s id (minus infinity_bits) (plus infinity_bits)
      (λ states. collect_samples a states [])) [
        | panic ↦ panic
        | value none ↦ value (err (aircraft_not_found id))
        | value (some selectors) ↦
            let schemas = unwrap_or (get_telemetry_schemas s id) [] in
            map_outcome ok (described_items schemas (collect_schemas schemas selectors))
      ]
