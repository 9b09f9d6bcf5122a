-- ===== src/Series.antt =====
-- The types of `core/src/management/series.rs`: selectors, the catalog, queries and their results.
pub mod Arithmetic
pub mod Fields
pub mod Catalog
pub mod Sample
pub mod Query
mod Examples
pub mod Sampled
pub mod Answer
pub mod Collected
pub mod Grouped
pub mod Written
pub mod GroupAnswer
pub mod Answered
pub mod Requests
pub mod Selectable
pub mod Described
pub mod SelectorSet
pub mod Listed
pub mod Catalogued
use fly_ruler_proto.Base.{ℕ, Option, List, ◌++◌}
use fly_ruler_proto.Base.Equality.{Str}
use fly_ruler_proto.Base.Text.{str}
use fly_ruler_proto.Float.{F64}

abbrev pub default_max_points : ℕ
default_max_points = 2000

abbrev pub min_max_points : ℕ
min_max_points = 100

abbrev pub max_max_points : ℕ
max_max_points = 20000

abbrev pub max_selections : ℕ
max_selections = 64

pub data PropulsorField : Type 0 where
  throttle_ratio rpm blade_pitch_rad thrust_newton torque_newton_meter : PropulsorField

pub data SeriesSelector : Type 0 where
  standard : Str → SeriesSelector
  propulsor : Str → PropulsorField → SeriesSelector
  telemetry : Str → Str → SeriesSelector

abbrev pub field_key : PropulsorField → Str
field_key throttle_ratio = str "throttle_ratio"
field_key rpm = str "rpm"
field_key blade_pitch_rad = str "blade_pitch_rad"
field_key thrust_newton = str "thrust_newton"
field_key torque_newton_meter = str "torque_newton_meter"

abbrev pub field_label : PropulsorField → Str
field_label throttle_ratio = str "Throttle"
field_label rpm = str "RPM"
field_label blade_pitch_rad = str "Blade pitch"
field_label thrust_newton = str "Thrust"
field_label torque_newton_meter = str "Torque"

abbrev pub field_unit : PropulsorField → Str
field_unit throttle_ratio = str "ratio"
field_unit rpm = str "rpm"
field_unit blade_pitch_rad = str "rad"
field_unit thrust_newton = str "N"
field_unit torque_newton_meter = str "N·m"

abbrev pub selector_key : SeriesSelector → Str
selector_key (standard path) = str "standard:" ++ path
selector_key (propulsor id field) = str "propulsor:" ++ (id ++ (str ":" ++ field_key field))
selector_key (telemetry stream field) = str "telemetry:" ++ (stream ++ (str ":" ++ field))

pub record SeriesCatalogItem : Type 0 where
  pub selector : SeriesSelector
  pub group : Str
  pub label : Str
  pub unit : Option Str

pub record SeriesSelection : Type 0 where
  pub aircraft_id : Str
  pub selector : SeriesSelector

pub record SeriesTimeRange : Type 0 where
  pub start : F64
  pub end : F64

pub record SeriesQueryRequest : Type 0 where
  pub selections : List SeriesSelection
  pub time_range : Option SeriesTimeRange
  pub max_points : Option ℕ

pub record SeriesStats : Type 0 where
  pub min : F64
  pub max : F64
  pub last : F64
  pub start : F64
  pub end : F64

-- `[timestamp_secs, value]`.
abbrev pub Point : Type 0
Point = F64 × F64

pub record SeriesData : Type 0 where
  pub key : Str
  pub aircraft_id : Str
  pub selector : SeriesSelector
  pub points : List Point
  pub total_points : ℕ
  pub returned_points : ℕ
  pub stats : Option SeriesStats

pub record SeriesQueryResponse : Type 0 where
  pub series : List SeriesData

pub data SeriesError : Type 0 where
  aircraft_not_found : Str → SeriesError
  invalid_selection_count invalid_max_points invalid_time_range : SeriesError
  unknown_standard_field : Str → SeriesError
  unknown_telemetry_field : Str → Str → SeriesError

pub data SeriesResult {ℓ} (A : Type ℓ) : Type ℓ where
  ok : A → SeriesResult A
  err : SeriesError → SeriesResult A
