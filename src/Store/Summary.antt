-- ===== src/Store/Summary.antt =====
-- Aircraft ids, summaries, counts and time bounds of `core/src/store.rs`.
pub mod Sorted
pub mod Ends
pub mod Bounds
use fly_ruler_proto.Base.Equality.{string_eq, Str}
use fly_ruler_proto.Base.{
  ℕ, ◌+◌, Bool, true, false, ◌&&◌, Option, none, some, List, [], ◌∷◌, ◌++◌, map, ltb, eqb,
  if◌then◌else◌, map_option, length, head?, get_last?, all,
}
use fly_ruler_proto.Float.{F64, total_lt, fmin, fmax}
use fly_ruler_proto.Store.{
  AircraftId, state_time, event_time, telemetry_time, AircraftTimeSeries, AircraftSummary,
  TimeSeriesStore,
}

-- `left.cmp(&right).is_lt()` on strings: UTF-8 orders as the code points do.
unfoldable pub str_lt : Str → Str → Bool
str_lt [] [] = false
str_lt [] (b ∷ t) = true
str_lt (a ∷ s) [] = false
str_lt (a ∷ s) (b ∷ t) = if ltb a b then true else eqb a b && str_lt s t

module _ {A : Type 0} (less : A → A → Bool) where
  -- A stable sort: the reference for `sort`, `sort_by` and `sort_by_key`. Equal elements keep
  -- their order.
  unfoldable pub insert_sorted : A → List A → List A
  insert_sorted x [] = x ∷ []
  insert_sorted x (y ∷ ys) = if less y x then y ∷ insert_sorted x ys else x ∷ y ∷ ys

  unfoldable pub sort_by : List A → List A
  unfolding insert_sorted
  sort_by [] = []
  sort_by (x ∷ xs) = insert_sorted x (sort_by xs)

unfoldable pub get_aircraft_ids : TimeSeriesStore → List AircraftId
unfolding str_lt sort_by
get_aircraft_ids s = sort_by str_lt (map (λ e. e.0) s.series)

-- The chain of up to three times.
abbrev pub option_list : Option F64 → List F64
option_list none = []
option_list (some t) = t ∷ []

abbrev pub chain : Option F64 → Option F64 → Option F64 → List F64
chain a b c = option_list a ++ (option_list b ++ option_list c)

-- `min_by(f64::total_cmp)` keeps the first of equal elements, `max_by` the last.
unfoldable pub min_from : F64 → List F64 → F64
min_from m [] = m
min_from m (t ∷ ts) = min_from (if total_lt t m then t else m) ts

unfoldable pub max_from : F64 → List F64 → F64
max_from m [] = m
max_from m (t ∷ ts) = max_from (if total_lt t m then m else t) ts

unfoldable pub min_by_total : List F64 → Option F64
unfolding min_from
min_by_total [] = none
min_by_total (t ∷ ts) = some (min_from t ts)

unfoldable pub max_by_total : List F64 → Option F64
unfolding max_from
max_by_total [] = none
max_by_total (t ∷ ts) = some (max_from t ts)

abbrev pub first_times : AircraftTimeSeries → List F64
first_times v =
    chain (map_option state_time (head? v.states)) (map_option event_time (head? v.events))
      (map_option telemetry_time (head? v.telemetry))

abbrev pub last_times : AircraftTimeSeries → List F64
last_times v =
    chain (map_option state_time (get_last? v.states)) (map_option event_time (get_last? v.events))
      (map_option telemetry_time (get_last? v.telemetry))

-- Both ends, or none.
abbrev pub both : Option F64 → Option F64 → Option (F64 × F64)
both (some a) (some b) = some (a, b)
both a b = none

unfoldable pub aircraft_time_range : AircraftTimeSeries → Option (F64 × F64)
unfolding min_by_total max_by_total
aircraft_time_range v = both (min_by_total (first_times v)) (max_by_total (last_times v))

-- One round of the loop of `active_time_bounds`.
abbrev pub widen : Option (F64 × F64) → Option (F64 × F64) → Option (F64 × F64)
widen bounds none = bounds
widen none (some range) = some range
widen (some (lower, upper)) (some (first, last)) = some (fmin lower first, fmax upper last)

-- `min_start` and `max_end` are set together, so one option holds both.
unfoldable pub time_bounds_from :
    Option (F64 × F64) → List (AircraftId × AircraftTimeSeries) → Option (F64 × F64)
time_bounds_from bounds [] = bounds
time_bounds_from bounds ((id, v) ∷ m) = time_bounds_from (widen bounds (aircraft_time_range v)) m

unfoldable pub active_time_bounds : TimeSeriesStore → Option (F64 × F64)
active_time_bounds s = time_bounds_from none s.series

abbrev pub summary_of : AircraftId × AircraftTimeSeries → AircraftSummary
summary_of (id, v) = record {
  id = id;
  config = v.config;
  time_range = aircraft_time_range v;
  state_count = length v.states;
  event_count = length v.events;
  telemetry_count = length v.telemetry;
}

unfoldable pub aircraft_summaries : TimeSeriesStore → List AircraftSummary
aircraft_summaries s = sort_by (λ l r. str_lt l.id r.id) (map summary_of s.series)

-- The sum of a count over all aircraft.
unfoldable pub sum_series : (AircraftTimeSeries → ℕ) → List (AircraftId × AircraftTimeSeries) → ℕ
sum_series f [] = 0
sum_series f ((id, v) ∷ m) = f v + sum_series f m

unfoldable pub event_count_for : TimeSeriesStore → ℕ
event_count_for s = sum_series (λ v. length v.events) s.series

unfoldable pub state_count_for : TimeSeriesStore → ℕ
state_count_for s = sum_series (λ v. length v.states) s.series

unfoldable pub telemetry_count_for : TimeSeriesStore → ℕ
telemetry_count_for s = sum_series (λ v. length v.telemetry) s.series

unfoldable pub aircraft_count_for : TimeSeriesStore → ℕ
aircraft_count_for s = length s.series
