-- ===== src/Series/Listed.antt =====
-- The passes that collect selectors keep what they have and add each one that has a value.
use fly_ruler_proto.Pb.{PropulsorState, AircraftState, TelemetryStreamSchema, TelemetryField}
use fly_ruler_proto.Series.Fields.{
  standard_arms, take_arm, standard_fields, find_last_propulsor, StandardField, propulsor_value,
  Arms, extract_value,
}
use fly_ruler_proto.Series.Catalog.{
  collect_propulsors, collect_samples, collect_schemas, collect_fields, collect_standard,
  collect_propulsor, collect_state_selectors, all_propulsor_fields, insert_if, insert_selector,
}
use fly_ruler_proto.Base.Equality.{string_eq, Str, str_eq, str_eq_iff}
use fly_ruler_proto.Base.{
  [], ◌∷◌, Bool, Any, Option, List, ◌≡◌, is_some_and, true, map, and_then, Bool-cases, inr, refl,
  Option-cases, inl, false, subst, sym,
}
use fly_ruler_proto.Store.{TimestampedState}
use fly_ruler_proto.Series.{
  SeriesSelector, standard, propulsor, telemetry, PropulsorField, throttle_ratio, rpm,
  blade_pitch_rad, thrust_newton, torque_newton_meter,
}
use fly_ruler_proto.Series.Arithmetic.{Arithmetic}
use fly_ruler_proto.Series.SelectorSet.{Lists, insert_selector-keeps, insert_selector_self}

module _ (y : SeriesSelector) where
  pub insert_if-keeps :
      (present : Bool) (x : SeriesSelector) (xs : List SeriesSelector)
      → Lists y xs
      → Lists y (insert_if present x xs)
  insert_if-keeps true x xs m = insert_selector-keeps x y xs m
  insert_if-keeps false x xs m = m

  collect_standard-keeps :
      (a : Arithmetic) (s : AircraftState) (fs : List StandardField) (out : List SeriesSelector)
      → Lists y out
      → Lists y (collect_standard a s fs out)
  unfolding collect_standard
  collect_standard-keeps a s [] out m = m
  collect_standard-keeps a s (f ∷ fs) out m = collect_standard-keeps a s fs _ (
      insert_if-keeps (is_some_and (extract_value a s (standard f.path)) (λ v. true))
        (standard f.path) out m)

  collect_propulsor-keeps :
      (p : PropulsorState) (fs : List PropulsorField) (out : List SeriesSelector)
      → Lists y out
      → Lists y (collect_propulsor p fs out)
  unfolding collect_propulsor
  collect_propulsor-keeps p [] out m = m
  collect_propulsor-keeps p (f ∷ fs) out m = collect_propulsor-keeps p fs _ (
      insert_if-keeps (is_some_and (propulsor_value p f) (λ v. true)) (propulsor p.propulsor_id f)
        out m)

  pub collect_propulsors-keeps :
      (ps : List PropulsorState) (out : List SeriesSelector)
      → Lists y out
      → Lists y (collect_propulsors ps out)
  unfolding collect_propulsors
  collect_propulsors-keeps [] out m = m
  collect_propulsors-keeps (p ∷ ps) out m =
      collect_propulsors-keeps ps _ (collect_propulsor-keeps p all_propulsor_fields out m)

  pub collect_samples-keeps :
      (a : Arithmetic) (states : List TimestampedState) (out : List SeriesSelector)
      → Lists y out
      → Lists y (collect_samples a states out)
  unfolding collect_samples collect_state_selectors
  collect_samples-keeps a [] out m = m
  collect_samples-keeps a (s ∷ states) out m = collect_samples-keeps a states _ (
      collect_propulsors-keeps s.state.propulsors _
        (collect_standard-keeps a s.state standard_fields out m))

  pub collect_fields-keeps :
      (stream : Str) (fs : List TelemetryField) (out : List SeriesSelector)
      → Lists y out
      → Lists y (collect_fields stream fs out)
  unfolding collect_fields
  collect_fields-keeps stream [] out m = m
  collect_fields-keeps stream (f ∷ fs) out m =
      collect_fields-keeps stream fs _ (insert_selector-keeps (telemetry stream f.field_id) y out m)

  pub collect_schemas-keeps :
      (ss : List TelemetryStreamSchema) (out : List SeriesSelector)
      → Lists y out
      → Lists y (collect_schemas ss out)
  unfolding collect_schemas
  collect_schemas-keeps [] out m = m
  collect_schemas-keeps (s ∷ ss) out m =
      collect_schemas-keeps ss _ (collect_fields-keeps s.stream_id s.fields out m)

-- The schemas have a field with the selector's identifiers.
abbrev pub HasField : SeriesSelector → List TelemetryStreamSchema → Type 0
HasField x schemas = Any (λ s. Any (λ f. telemetry s.stream_id f.field_id ≡ x) s.fields) schemas

collect_fields-Lists :
    (x : SeriesSelector) (stream : Str) (fs : List TelemetryField) (out : List SeriesSelector)
    → Any (λ f. telemetry stream f.field_id ≡ x) fs
    → Lists x (collect_fields stream fs out)
unfolding collect_fields
collect_fields-Lists x stream [] out m = absurd m
collect_fields-Lists x stream (f ∷ fs) out (inl e) = collect_fields-keeps x stream fs _ (
    subst (λ y. Lists y (insert_selector (telemetry stream f.field_id) out)) e
      (insert_selector_self (telemetry stream f.field_id) out))
collect_fields-Lists x stream (f ∷ fs) out (inr m) = collect_fields-Lists x stream fs _ m

pub collect_schemas-Lists :
    (x : SeriesSelector) (schemas : List TelemetryStreamSchema) (out : List SeriesSelector)
    → HasField x schemas
    → Lists x (collect_schemas schemas out)
unfolding collect_schemas
collect_schemas-Lists x [] out m = absurd m
collect_schemas-Lists x (s ∷ schemas) out (inl here) =
    collect_schemas-keeps x schemas _ (collect_fields-Lists x s.stream_id s.fields out here)
collect_schemas-Lists x (s ∷ schemas) out (inr m) = collect_schemas-Lists x schemas _ m

abbrev pub HasSome : {A : Type 0} → Option A → Type 0
HasSome o = is_some_and o (λ v. true) ≡ true

pub collect_standard-Lists :
    (a : Arithmetic) (s : AircraftState) (path : Str) (fs : List StandardField)
    (out : List SeriesSelector)
    → Any (λ p. p ≡ path) (map (λ f. f.path) fs)
    → HasSome (extract_value a s (standard path))
    → Lists (standard path) (collect_standard a s fs out)
unfolding collect_standard
collect_standard-Lists a s path [] out m h = absurd m
collect_standard-Lists a s path (f ∷ fs) out (inr m) h = collect_standard-Lists a s path fs _ m h
collect_standard-Lists a s path (f ∷ fs) out (inl e) h =
    let there : is_some_and (extract_value a s (standard f.path)) (λ v. true) ≡ true =
      subst (λ p. HasSome (extract_value a s (standard p))) (sym e) h in
    rw there (
      collect_standard-keeps (standard path) a s fs _ (
        subst (λ p. Lists (standard p) (insert_selector (standard f.path) out)) e
          (insert_selector_self (standard f.path) out)))

collect_propulsor-Lists :
    (p : PropulsorState) (field : PropulsorField) (fs : List PropulsorField)
    (out : List SeriesSelector)
    → Any (λ f. f ≡ field) fs
    → HasSome (propulsor_value p field)
    → Lists (propulsor p.propulsor_id field) (collect_propulsor p fs out)
unfolding collect_propulsor
collect_propulsor-Lists p field [] out m h = absurd m
collect_propulsor-Lists p field (f ∷ fs) out (inr m) h = collect_propulsor-Lists p field fs _ m h
collect_propulsor-Lists p field (f ∷ fs) out (inl e) h =
    let there : is_some_and (propulsor_value p f) (λ v. true) ≡ true =
      subst (λ g. HasSome (propulsor_value p g)) (sym e) h in
    rw there (
      collect_propulsor-keeps (propulsor p.propulsor_id field) p fs _ (
        subst
          (λ g.
            Lists (propulsor p.propulsor_id g) (insert_selector (propulsor p.propulsor_id f) out))
          e (insert_selector_self (propulsor p.propulsor_id f) out)))

all_propulsor_fields_all : (f : PropulsorField) → Any (λ g. g ≡ f) all_propulsor_fields
all_propulsor_fields_all throttle_ratio = inl refl
all_propulsor_fields_all rpm = inr (inl refl)
all_propulsor_fields_all blade_pitch_rad = inr (inr (inl refl))
all_propulsor_fields_all thrust_newton = inr (inr (inr (inl refl)))
all_propulsor_fields_all torque_newton_meter = inr (inr (inr (inr (inl refl))))

pub collect_propulsors-Lists :
    (id : Str) (field : PropulsorField) (ps : List PropulsorState) (out : List SeriesSelector)
    → HasSome (and_then (find_last_propulsor id ps) (λ p. propulsor_value p field))
    → Lists (propulsor id field) (collect_propulsors ps out)
unfolding collect_propulsors find_last_propulsor
collect_propulsors-Lists id field [] out h = absurd (cc)
collect_propulsors-Lists id field (p ∷ ps) out h = elim (Option-cases (find_last_propulsor id ps)) [
  | inr (q, e) ↦
      let kept : HasSome (propulsor_value q field) = rw (find_last_propulsor, e) at h in
      let there : HasSome (and_then (find_last_propulsor id ps) (λ r. propulsor_value r field)) =
        rw e kept in
      collect_propulsors-Lists id field ps _ there
  | inl e ↦ elim (Bool-cases (str_eq p.propulsor_id id)) [
    | inl same ↦ collect_propulsors-keeps (propulsor id field) ps _ (
        subst (λ i. Lists (propulsor i field) (collect_propulsor p all_propulsor_fields out))
          ((str_eq_iff p.propulsor_id id).0 same)
          (collect_propulsor-Lists p field all_propulsor_fields out (all_propulsor_fields_all field)
            (rw (find_last_propulsor, e, same) at h)))
    | inr other ↦ let none_there = rw (find_last_propulsor, e, other) at h in absurd (cc none_there)
  ]
]

pub take_arm-path :
    (path : Str) (arms : Arms) (s : AircraftState)
    → HasSome (take_arm path arms s)
    → Any (λ p. p ≡ path) (map (λ arm. arm.0) arms)
unfolding take_arm
take_arm-path path [] s h = absurd (cc)
take_arm-path path ((p, read) ∷ arms) s h = elim (Bool-cases (str_eq p path)) [
  | inl e ↦ inl ((str_eq_iff p path).0 e)
  | inr e ↦ inr (take_arm-path path arms s (rw (take_arm, e) at h))
]

-- The arms and the table of standard fields have the same paths.
pub arms_paths :
    (a : Arithmetic) → map (λ arm. arm.0) (standard_arms a) ≡ map (λ f. f.path) standard_fields
unfolding standard_arms standard_fields
arms_paths a = refl
