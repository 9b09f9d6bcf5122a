-- ===== src/Store/Telemetry/Checked.antt =====
-- What the validation of a telemetry frame in `core/src/store.rs` finds out.
use fly_ruler_proto.Pb.{
  f64_value, i64_value, bool_value, TelemetryKind, telemetry_value_type, TelemetryField,
  TelemetryStreamSchema, TelemetryValue, TelemetryFrame,
}
use fly_ruler_proto.Base.Int.{ℤ, pos}
use fly_ruler_proto.Store.Telemetry.{
  kind_fits, find_schema, value_fits, validate_values, validate_telemetry_frame,
}
use fly_ruler_proto.Base.{
  zero, suc, refl, Option, ◌⊎◌, Bool, ◌≡◌, sym, ap, ◌∙◌, inl, inr, true, some, List, [], ◌∷◌, arith,
  eqb, Bool-cases, Option-cases, length, Any,
}
use fly_ruler_proto.Base.Equality.{Str, str_eq, str_eq_iff}
use fly_ruler_proto.Store.{ok, F64}

-- The value is of the type that the field declares: 1 is a 64-bit float, 2 a 64-bit integer and 3 a
-- Boolean.
abbrev pub HasFieldType : ℤ → Option TelemetryKind → Type 0
HasFieldType type kind =
    ((type ≡ pos 1) × (x : F64) × (kind ≡ some (f64_value x)))
    ⊎ ((type ≡ pos 2) × (x : ℤ) × (kind ≡ some (i64_value x)))
    ⊎ ((type ≡ pos 3) × (x : Bool) × (kind ≡ some (bool_value x)))

-- As many values as fields, and each of its field's type.
abbrev pub DoFit : List TelemetryField → List TelemetryValue → Type 0
DoFit [] [] = Unit
DoFit [] (v ∷ vs) = ⊥
DoFit (f ∷ fs) [] = ⊥
DoFit (f ∷ fs) (v ∷ vs) = HasFieldType f.value_type v.kind × DoFit fs vs

kind_fits-HasFieldType :
    (n : ℤ) (k : Option TelemetryKind)
    → kind_fits (telemetry_value_type n) k ≡ true
    → HasFieldType n k
kind_fits-HasFieldType (pos (suc zero)) (some (f64_value x)) h = inl (refl, x, refl)
kind_fits-HasFieldType (pos (suc (suc zero))) (some (i64_value x)) h = inr (inl (refl, x, refl))
kind_fits-HasFieldType (pos (suc (suc (suc zero)))) (some (bool_value x)) h =
    inr (inr (refl, x, refl))
kind_fits-HasFieldType n k h = absurd (cc h)

HasFieldType-kind_fits :
    (n : ℤ) (k : Option TelemetryKind)
    → HasFieldType n k
    → kind_fits (telemetry_value_type n) k ≡ true
HasFieldType-kind_fits n k (inl (e, x, f)) = rw (e, f) refl
HasFieldType-kind_fits n k (inr (inl (e, x, f))) = rw (e, f) refl
HasFieldType-kind_fits n k (inr (inr (e, x, f))) = rw (e, f) refl

validate_values-DoFit :
    (fs : List TelemetryField) (vs : List TelemetryValue)
    → length vs ≡ length fs
    → validate_values fs vs ≡ ok tt
    → DoFit fs vs
unfolding validate_values value_fits
validate_values-DoFit [] [] n h = tt
validate_values-DoFit [] (v ∷ vs) n h = absurd (omega arith)
validate_values-DoFit (f ∷ fs) [] n h = absurd (omega arith)
validate_values-DoFit (f ∷ fs) (v ∷ vs) n h = elim (Bool-cases (value_fits f v)) [
  | inl e ↦ (
    kind_fits-HasFieldType f.value_type v.kind e,
    validate_values-DoFit fs vs (omega arith) (ground arith),
  )
  | inr e ↦ absurd (ground arith)
]

DoFit-length :
    (fs : List TelemetryField) (vs : List TelemetryValue) → DoFit fs vs → length vs ≡ length fs
DoFit-length [] [] h = refl
DoFit-length [] (v ∷ vs) h = absurd h
DoFit-length (f ∷ fs) [] h = absurd h
DoFit-length (f ∷ fs) (v ∷ vs) h = omega (arith, DoFit-length fs vs h.1)

DoFit-validate_values :
    (fs : List TelemetryField) (vs : List TelemetryValue)
    → DoFit fs vs
    → validate_values fs vs ≡ ok tt
unfolding validate_values value_fits
DoFit-validate_values [] [] h = refl
DoFit-validate_values [] (v ∷ vs) h = absurd h
DoFit-validate_values (f ∷ fs) [] h = absurd h
DoFit-validate_values (f ∷ fs) (v ∷ vs) h =
    let fits : value_fits f v ≡ true = HasFieldType-kind_fits f.value_type v.kind h.0 in
    let rest = DoFit-validate_values fs vs h.1 in rw (fits, rest) refl

find_schema-member :
    (stream : Str) (schemas : List TelemetryStreamSchema) (found : TelemetryStreamSchema)
    → find_schema stream schemas ≡ some found
    → Any (λ s. s ≡ found) schemas × (found.stream_id ≡ stream)
unfolding find_schema
find_schema-member stream [] found h = absurd (cc)
find_schema-member stream (s ∷ schemas) found h = elim (Bool-cases (str_eq s.stream_id stream)) [
  | inl e ↦
      let same : s ≡ found = ground arith in
      (inl same, ap (λ x. x.stream_id) (sym same) ∙ (str_eq_iff s.stream_id stream).0 e)
  | inr e ↦
      let (there, named) = find_schema-member stream schemas found (ground arith) in
      (inr there, named)
]

-- The schema of the stream, and values that fit it.
pub validate_telemetry_frame-DoFit :
    (schemas : List TelemetryStreamSchema) (frame : TelemetryFrame)
    → validate_telemetry_frame schemas frame ≡ ok tt
    → (schema : TelemetryStreamSchema) × Any (λ s. s ≡ schema) schemas
      × (schema.stream_id ≡ frame.stream_id)
      × DoFit schema.fields frame.values
unfolding validate_telemetry_frame
validate_telemetry_frame-DoFit schemas frame h =
    elim (Option-cases (find_schema frame.stream_id schemas)) [
      | inl e ↦ absurd (ground arith)
      | inr (schema, e) ↦ elim (Bool-cases (eqb (length frame.values) (length schema.fields))) [
        | inr n ↦ absurd (ground arith)
        | inl n ↦
            let (there, named) = find_schema-member frame.stream_id schemas schema e in
            (
              schema,
              there,
              named,
              validate_values-DoFit schema.fields frame.values (ground arith) (ground arith),
            )
      ]
    ]

-- Values that fit the schema which the stream's identifier finds are accepted.
pub DoFit-validate_telemetry_frame :
    (schemas : List TelemetryStreamSchema) (frame : TelemetryFrame) (schema : TelemetryStreamSchema)
    → find_schema frame.stream_id schemas ≡ some schema
    → DoFit schema.fields frame.values
    → validate_telemetry_frame schemas frame ≡ ok tt
unfolding validate_telemetry_frame
DoFit-validate_telemetry_frame schemas frame schema found h =
    let count : eqb (length frame.values) (length schema.fields) ≡ true =
      ground (arith, DoFit-length schema.fields frame.values h) in
    let values = DoFit-validate_values schema.fields frame.values h in
    rw (validate_telemetry_frame, found, count, values) refl
