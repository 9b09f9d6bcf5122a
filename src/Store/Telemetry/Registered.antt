-- ===== src/Store/Telemetry/Registered.antt =====
-- Schemas that passed the validation of `core/src/store.rs` are found by their stream identifiers.
use fly_ruler_proto.Store.Telemetry.{
  validate_telemetry_schemas, contains, validate_schemas, find_schema,
}
use fly_ruler_proto.Base.{[], ◌∷◌, List, ◌≡◌, Any, false, some, arith, inl, ap, subst, inr, refl}
use fly_ruler_proto.Base.Equality.{str_eq, str_eq_iff, Str}
use fly_ruler_proto.Store.{ok, TelemetryStreamSchema}

contains_tail :
    (x : Str) (seen : List Str) (s : Str) → contains (x ∷ seen) s ≡ false → contains seen s ≡ false
unfolding contains
contains_tail x seen s h = ground arith

contains_head :
    (x : Str) (seen : List Str) (s : Str) → contains (x ∷ seen) s ≡ false → str_eq x s ≡ false
unfolding contains
contains_head x seen s h = ground arith

-- Identifiers that were seen before are refused.
unseen_streams :
    (seen : List Str) (schemas : List TelemetryStreamSchema) (s : TelemetryStreamSchema)
    → validate_schemas seen schemas ≡ ok tt
    → Any (λ t. t ≡ s) schemas
    → contains seen s.stream_id ≡ false
unfolding validate_schemas
unseen_streams seen [] s h m = absurd m
unseen_streams seen (t ∷ schemas) s h (inl e) =
    let fresh : contains seen t.stream_id ≡ false = ground arith in
    subst (λ u. contains seen u.stream_id ≡ false) e fresh
unseen_streams seen (t ∷ schemas) s h (inr m) =
    let rest : validate_schemas (t.stream_id ∷ seen) schemas ≡ ok tt = ground arith in
    contains_tail t.stream_id seen s.stream_id
      (unseen_streams (t.stream_id ∷ seen) schemas s rest m)

find_from :
    (seen : List Str) (schemas : List TelemetryStreamSchema) (s : TelemetryStreamSchema)
    → validate_schemas seen schemas ≡ ok tt
    → Any (λ t. t ≡ s) schemas
    → find_schema s.stream_id schemas ≡ some s
unfolding validate_schemas find_schema
find_from seen [] s h m = absurd m
find_from seen (t ∷ schemas) s h (inl e) =
    let same : t.stream_id ≡ s.stream_id = ap (λ u. u.stream_id) e in
    rw ((str_eq_iff t.stream_id s.stream_id).1 same) (ap some e)
find_from seen (t ∷ schemas) s h (inr m) =
    let rest : validate_schemas (t.stream_id ∷ seen) schemas ≡ ok tt = ground arith in
    let other : str_eq t.stream_id s.stream_id ≡ false =
      contains_head t.stream_id seen s.stream_id
        (unseen_streams (t.stream_id ∷ seen) schemas s rest m) in
    rw other (find_from (t.stream_id ∷ seen) schemas s rest m)

-- A schema among those that passed is the one that its stream identifier finds.
pub find_schema_self :
    (schemas : List TelemetryStreamSchema) (s : TelemetryStreamSchema)
    → validate_telemetry_schemas schemas ≡ ok tt
    → Any (λ t. t ≡ s) schemas
    → find_schema s.stream_id schemas ≡ some s
unfolding validate_telemetry_schemas
find_schema_self schemas s h m = find_from [] schemas s h m

-- No schemas pass.
pub empty_schemas : validate_telemetry_schemas [] ≡ ok tt
unfolding validate_telemetry_schemas validate_schemas
empty_schemas = refl
