-- ===== src/Series/Examples.antt =====
-- The theorems on `core/src/management/series.rs` at concrete stores and requests.
use fly_ruler_proto.Store.Schemas.{IsChecked}
use fly_ruler_proto.Store.Append.{schemas_of}
use fly_ruler_proto.Series.Catalogued.{catalog-Lists, catalog-IsSelectable}
use fly_ruler_proto.Series.Selectable.{IsSelectable}
use fly_ruler_proto.Series.Sampled.{IsSampled, lttb-IsSampled}
use fly_ruler_proto.Series.Catalog.{catalog}
use fly_ruler_proto.Store.Telemetry.{
  find_schema, validate_telemetry_schemas, validate_schemas, validate_fields, is_blank, contains,
  has_value_type,
}
use fly_ruler_proto.Series.Sample.{lttb, sum_points}
use fly_ruler_proto.Base.Dict.{lookup}
use fly_ruler_proto.Series.Requests.{
  IsExplained, query-IsExplained, query-eq-response, IsWellFormed, expected_response,
}
use fly_ruler_proto.Store.Valid.Steps.{IsValid}
use fly_ruler_proto.Series.Answer.{refusal, series_of, points_of, state_points, frame_points}
use fly_ruler_proto.Series.Fields.{
  validate_selector, extract_value, telemetry_field, is_standard_field, standard_value,
  standard_fields, field_position,
}
use fly_ruler_proto.Pb.{TelemetryStreamSchema, AircraftState, f64_value}
use fly_ruler_proto.Series.Query.{query}
use fly_ruler_proto.Store.{TimeSeriesStore, AircraftTimeSeries}
use fly_ruler_proto.Series.GroupAnswer.{IsCountable}
use fly_ruler_proto.Base.Equality.{string_eq}
use fly_ruler_proto.Base.{
  [], ◌∷◌, none, some, ◌+◌, ◌/◌, min, ℕ, ◌<◌, ◌-◌, arith, ◌≤◌, ◌*◌, ◌≡◌, true, refl, List, All, Any,
  map, inr, inl,
}
use fly_ruler_proto.Base.Text.{str}
use fly_ruler_proto.Base.Int.{pos}
use fly_ruler_proto.Float.{F64, plus, minus, is_finite, le, is_nan, infinity_bits, lt}
use fly_ruler_proto.Timeline.{value, slice, range_filter}
use fly_ruler_proto.Series.{
  standard, telemetry, ok, SeriesQueryRequest, SeriesSelection, SeriesCatalogItem, Point,
}
use fly_ruler_proto.Series.Arithmetic.{Arithmetic, IsRounded, exact_limit}

-- A number below the limit stands for the bit pattern that it is; products stop at infinity.
abbrev count_of : F64 → ℕ
count_of (plus m) = m
count_of (minus m) = 0

abbrev counting_product : F64 → F64 → F64
counting_product (plus b) (plus k) = plus (min (b * k) infinity_bits)
counting_product x y = plus 0

abbrev counting : Arithmetic
counting = record {
  of_usize = plus;
  of_i64 = λ n. plus 0;
  to_usize = count_of;
  sum = λ x y. plus (count_of x + count_of y);
  difference = λ x y. plus (count_of x - count_of y);
  product = counting_product;
  quotient = λ x y. plus (count_of x / count_of y);
  abs = λ x. x;
  euler = λ q. none;
}

count_of_mono : (x y : F64) → le x y ≡ true → count_of x ≤ count_of y
unfolding le is_nan
count_of_mono (plus m) (plus n) h = ground arith
count_of_mono (plus m) (minus n) h = ground arith
count_of_mono (minus m) (plus n) h = omega arith
count_of_mono (minus m) (minus n) h = omega arith

le_plus : (m n : ℕ) → m ≤ n → n ≤ infinity_bits → le (plus m) (plus n) ≡ true
unfolding le is_nan
le_plus m n h k = ground arith

product_mono :
    (b c : ℕ) (k : F64)
    → b ≤ c
    → le (counting_product (plus b) k) (counting_product (plus c) k) ≡ true
product_mono b c (plus k) h =
    let grows : b * k ≤ c * k = grind arith in
    le_plus (min (b * k) infinity_bits) (min (c * k) infinity_bits) (omega arith) (omega arith)
product_mono b c (minus k) h = le_plus 0 0 (omega arith) (omega arith)

parts-le : (b m k : ℕ) → b < k → b * (m / k) ≤ m
parts-le b m k h =
    let fewer : b * (m / k) ≤ k * (m / k) = grind arith in
    let whole : k * (m / k) ≤ m = grind arith in omega arith

quotient-le : (m k : ℕ) → 0 < k → m / k ≤ m
quotient-le m k h = grind arith

finite_plus : (m : ℕ) → m < exact_limit → is_finite (plus m) ≡ true
unfolding is_finite
finite_plus m h = ground arith

counting-IsRounded : IsRounded counting
counting-IsRounded = record {
  to_usize_mono = count_of_mono;
  to_usize-of_usize = λ m h. refl;
  product_mono = λ b c k h l f p. product_mono b c k h;
  quotient-of_usize = λ m k h p l. (
    finite_plus (m / k) (omega (arith, quotient-le m k p)),
    le_plus 0 (m / k) (omega arith) (omega (arith, quotient-le m k p)),
  );
  product-quotient = λ b m k h l n.
      le_plus (min (b * (m / k)) infinity_bits) m (omega (arith, parts-le b m k h)) (omega arith);
}

-- 1.0, 1.5 and 2.0.
abbrev one : F64
one = plus 0x3ff0_0000_0000_0000

abbrev one_half : F64
one_half = plus 0x3ff8_0000_0000_0000

abbrev two : F64
two = plus 0x4000_0000_0000_0000

abbrev place : F64 → AircraftState
place height = record {
  position = some (record { x = one; y = two; z = height });
  velocity = none;
  attitude = none;
  angular_velocity = none;
  derived = none;
  control_surfaces = none;
  linear_acceleration_body = none;
  propulsors = [];
}

abbrev schema : TelemetryStreamSchema
schema = record {
  stream_id = str "engine";
  name = str "Engine";
  nominal_rate_hz = none;
  fields =
      record {
        field_id = str "egt";
        label = [];
        group = [];
        unit = str "K";
        description = [];
        value_type = pos 1;
      }
      ∷ [];
}

-- An aircraft with two states and a telemetry frame between them.
abbrev aircraft : AircraftTimeSeries
aircraft = record {
  states =
      record { timestamp_secs = one; state = place one }
      ∷ record { timestamp_secs = two; state = place two }
      ∷ [];
  events = [];
  telemetry =
      record {
        timestamp_secs = one_half;
        frame = record {
          stream_id = str "engine";
          sequence = 1;
          values = record { kind = some (f64_value two) } ∷ [];
        };
      }
      ∷ [];
  config = some (record { name = str "one"; toml_config = []; telemetry_schemas = schema ∷ [] });
}

abbrev store : TimeSeriesStore
store = record { series = (str "a", aircraft) ∷ []; live_state_receipts = [] }

ordered_times :
    (is_finite one ≡ true)
    × (is_finite one_half ≡ true)
    × (is_finite two ≡ true)
    × (le one two ≡ true)
unfolding is_finite le is_nan
ordered_times = (refl, refl, refl, refl)

store-IsValid : IsValid store
store-IsValid = (
  record {
    states = (ordered_times.0, (ordered_times.3, tt), (ordered_times.2, tt, tt));
    events = tt;
    telemetry = (ordered_times.1, tt, tt);
  },
  tt,
)

aircraft-IsChecked : IsChecked aircraft
unfolding validate_telemetry_schemas validate_schemas validate_fields is_blank contains
    has_value_type
aircraft-IsChecked = refl

store-IsCountable : IsCountable store
store-IsCountable = (omega arith, tt)

abbrev wanted : List SeriesSelection
wanted =
    record { aircraft_id = str "a"; selector = telemetry (str "engine") (str "egt") }
    ∷ record { aircraft_id = str "a"; selector = standard (str "position.z") }
    ∷ []

abbrev wanted_request : SeriesQueryRequest
wanted_request = record { selections = wanted; time_range = none; max_points = none }

wanted_request-IsWellFormed : IsWellFormed wanted_request
unfolding validate_selector is_standard_field standard_fields le is_nan
wanted_request-IsWellFormed = record {
  some_selected = omega arith;
  few_selected = omega arith;
  enough_points = omega arith;
  few_points = omega arith;
  ordered = refl;
  existing = (refl, (refl, tt));
}

answerable : All (λ x. refusal store x ≡ none) wanted
unfolding refusal lookup telemetry_field find_schema field_position
answerable = (refl, (refl, tt))

query-eq-response_example :
    query counting store wanted_request
    ≡ value (ok (expected_response counting store wanted_request))
query-eq-response_example =
    query-eq-response counting store wanted_request counting-IsRounded store-IsValid
      store-IsCountable wanted_request-IsWellFormed answerable

query-IsExplained_example :
    IsExplained counting store wanted_request (query counting store wanted_request)
query-IsExplained_example =
    query-IsExplained counting store wanted_request counting-IsRounded store-IsValid
      store-IsCountable

-- What the request gives: the telemetry's value and the two heights.
response_run :
    map (λ d. d.points) (expected_response counting store wanted_request).series
    ≡ ((one_half, two) ∷ []) ∷ ((one, one) ∷ (two, two) ∷ []) ∷ []
unfolding series_of points_of state_points frame_points lttb range_filter extract_value
    standard_value telemetry_field find_schema field_position lookup is_finite le is_nan
response_run = refl

abbrev points : List Point
points =
    (plus 1, plus 10)
    ∷ (plus 2, plus 90)
    ∷ (plus 3, plus 20)
    ∷ (plus 4, plus 30)
    ∷ (plus 5, plus 10)
    ∷ []

lttb_run :
    lttb counting points 3 ≡ value ((plus 1, plus 10) ∷ (plus 2, plus 90) ∷ (plus 5, plus 10) ∷ [])
unfolding lttb sum_points slice lt is_nan
lttb_run = refl

lttb-IsSampled_example :
    (out : List Point) × (lttb counting points 3 ≡ value out) × IsSampled points 3 out
lttb-IsSampled_example =
    lttb-IsSampled counting points 3 counting-IsRounded (omega arith) (omega arith)

found : lookup (str "a") store.series ≡ some aircraft
unfolding lookup
found = refl

catalog-IsSelectable_example :
    (items : List SeriesCatalogItem) × (catalog counting store (str "a") ≡ value (ok items))
    × All (λ i. IsSelectable (schemas_of aircraft) i.selector) items
catalog-IsSelectable_example =
    catalog-IsSelectable counting store (str "a") aircraft store-IsValid aircraft-IsChecked found

-- The telemetry field of the aircraft is listed, next to the series of its states.
catalog-Lists_example :
    (items : List SeriesCatalogItem) × (catalog counting store (str "a") ≡ value (ok items))
    × Any (λ i. i.selector ≡ telemetry (str "engine") (str "egt")) items
catalog-Lists_example =
    catalog-Lists counting store (str "a") aircraft (telemetry (str "engine") (str "egt"))
      store-IsValid aircraft-IsChecked found (inr (inl (inl refl)))
