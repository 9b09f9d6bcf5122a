-- ===== src/Store/Telemetry.antt =====
-- `validate_telemetry_schemas` and `validate_telemetry_frame` of `core/src/store.rs`.
pub mod Checked
pub mod Registered
use fly_ruler_proto.Base.{
  eqb, ℕ, Bool, true, false, not, ◌&&◌, ◌||◌, Option, none, some, List, [], ◌∷◌, leb, if◌then◌else◌,
  is_none_or, length, all,
}
use fly_ruler_proto.Base.Equality.{Str, str_eq}
use fly_ruler_proto.Float.{F64, plus, is_finite, le}
use fly_ruler_proto.Pb.{
  TelemetryValueType, unspecified, f64_type, i64_type, bool_type, telemetry_value_type,
  TelemetryField, TelemetryStreamSchema, TelemetryKind, f64_value, i64_value, bool_value,
  TelemetryValue, TelemetryFrame,
}
use fly_ruler_proto.Store.{
  bad_stream_id, bad_nominal_rate, bad_field_id, bad_value_type, unknown_stream, wrong_value_count,
  mismatched_value_type, invalid_data, StoreResult, ok, err, ◌>>◌, require,
}

-- `char::is_whitespace`: the code points with the property White_Space.
abbrev pub is_whitespace : ℕ → Bool
is_whitespace c =
    (leb 0x9 c && leb c 0xd)
    || eqb c 0x20
    || eqb c 0x85
    || eqb c 0xa0
    || eqb c 0x1680
    || (leb 0x2000 c && leb c 0x200a)
    || eqb c 0x2028
    || eqb c 0x2029
    || eqb c 0x202f
    || eqb c 0x205f
    || eqb c 0x3000

-- `text.trim().is_empty()`.
unfoldable pub is_blank : Str → Bool
is_blank s = all is_whitespace s

-- Membership in the `BTreeSet` of the names seen so far.
unfoldable pub contains : List Str → Str → Bool
contains [] s = false
contains (x ∷ xs) s = str_eq x s || contains xs s

unfoldable pub is_positive : F64 → Bool
is_positive x = is_finite x && not (le x (plus 0))

unfoldable pub has_value_type : TelemetryField → Bool
has_value_type f = elim (telemetry_value_type f.value_type) [
  | none ↦ false
  | some t ↦ elim t [ unspecified ↦ false | _ ↦ true ]
]

unfoldable pub validate_fields : Str → List Str → List TelemetryField → StoreResult (Unit {0})
validate_fields stream seen [] = ok tt
validate_fields stream seen (f ∷ fs) =
    let rest = validate_fields stream (f.field_id ∷ seen) fs in
    do
      require (not (is_blank f.field_id) && not (contains seen f.field_id))
          (bad_field_id stream f.field_id)
      require (has_value_type f) (bad_value_type f.field_id)
      rest

unfoldable pub validate_schemas : List Str → List TelemetryStreamSchema → StoreResult (Unit {0})
validate_schemas seen [] = ok tt
validate_schemas seen (s ∷ ss) =
    let rest = validate_schemas (s.stream_id ∷ seen) ss in
    do
      require (not (is_blank s.stream_id) && not (contains seen s.stream_id))
          (bad_stream_id s.stream_id)
      require (is_none_or s.nominal_rate_hz is_positive) (bad_nominal_rate s.stream_id)
      validate_fields s.stream_id [] s.fields
      rest

unfoldable pub validate_telemetry_schemas : List TelemetryStreamSchema → StoreResult (Unit {0})
validate_telemetry_schemas schemas = validate_schemas [] schemas

-- `schemas.iter().find(|schema| schema.stream_id == stream)`.
unfoldable pub find_schema : Str → List TelemetryStreamSchema → Option TelemetryStreamSchema
find_schema stream [] = none
find_schema stream (s ∷ ss) = if str_eq s.stream_id stream then some s else find_schema stream ss

abbrev pub kind_fits : Option TelemetryValueType → Option TelemetryKind → Bool
kind_fits (some f64_type) (some (f64_value v)) = true
kind_fits (some i64_type) (some (i64_value v)) = true
kind_fits (some bool_type) (some (bool_value v)) = true
kind_fits t v = false

unfoldable pub value_fits : TelemetryField → TelemetryValue → Bool
value_fits f v = kind_fits (telemetry_value_type f.value_type) v.kind

-- The loop over `fields.iter().zip(&values)`.
unfoldable pub validate_values : List TelemetryField → List TelemetryValue → StoreResult (Unit {0})
validate_values (f ∷ fs) (v ∷ vs) =
    let rest = validate_values fs vs in
    require (value_fits f v) (mismatched_value_type f.field_id) >> rest
validate_values fs vs = ok tt

unfoldable pub validate_telemetry_frame :
    List TelemetryStreamSchema → TelemetryFrame → StoreResult (Unit {0})
validate_telemetry_frame schemas frame = elim (find_schema frame.stream_id schemas) [
  | none ↦ err (invalid_data (unknown_stream frame.stream_id))
  | some schema ↦ do
    require (eqb (length frame.values) (length schema.fields))
        (wrong_value_count frame.stream_id (length schema.fields) (length frame.values))
    validate_values schema.fields frame.values
]
