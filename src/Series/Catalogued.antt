-- ===== src/Series/Catalogued.antt =====
-- What `catalog` of `core/src/management/series.rs` lists.
use fly_ruler_proto.Series.Listed.{
  HasField, collect_schemas-Lists, HasSome, collect_propulsors-keeps, collect_samples-keeps,
  collect_standard-Lists, collect_schemas-keeps, arms_paths, take_arm-path,
  collect_propulsors-Lists,
}
use fly_ruler_proto.Timeline.Ranges.{range_slice-range_filter}
use fly_ruler_proto.Pb.{AircraftState}
use fly_ruler_proto.Base.Dict.{lookup}
use fly_ruler_proto.Series.Described.{collect_schemas-IsSelectable, described_items_lem}
use fly_ruler_proto.Store.Append.{schemas_of}
use fly_ruler_proto.Series.Selectable.{IsSelectable, collect_samples-IsSelectable}
use fly_ruler_proto.Store.Valid.Steps.{IsValid, lookup-IsValid}
use fly_ruler_proto.Series.Fields.{extract_value, standard_value, standard_fields, standard_arms}
use fly_ruler_proto.Store.Query.{visit_states_range, get_telemetry_schemas, map_series}
use fly_ruler_proto.Series.Catalog.{
  catalog, collect_state_selectors, collect_samples, collect_schemas, described_items,
}
use fly_ruler_proto.Float.{le, is_nan, is_finite, F64, minus, infinity_bits, plus}
use fly_ruler_proto.Base.Equality.{string_eq, Str}
use fly_ruler_proto.Base.{
  [], ◌∷◌, some, List, Any, All, ◌≡◌, map, inl, true, subst, inr, ◌∙◌, arith, sym, ap, refl, ◌⊎◌,
}
use fly_ruler_proto.Timeline.{value, map_outcome, range_filter, Sorted}
use fly_ruler_proto.Store.Schemas.{IsChecked}
use fly_ruler_proto.Store.{TimeSeriesStore, AircraftTimeSeries, TimestampedState, state_time}
use fly_ruler_proto.Series.{SeriesSelector, standard, propulsor, telemetry, ok, SeriesCatalogItem}
use fly_ruler_proto.Series.Arithmetic.{Arithmetic}
use fly_ruler_proto.Series.SelectorSet.{Lists}

All-unmap :
    {A B : Type 0} (P : B → Type 0) (f : A → B) (xs : List A)
    → All P (map f xs)
    → All (λ x. P (f x)) xs
All-unmap P f [] h = tt
All-unmap P f (x ∷ xs) h = (h.0, All-unmap P f xs h.1)

Any-unmap :
    {A B : Type 0} (P : B → Type 0) (f : A → B) (xs : List A)
    → Any P (map f xs)
    → Any (λ x. P (f x)) xs
Any-unmap P f [] h = h
Any-unmap P f (x ∷ xs) (inl p) = inl p
Any-unmap P f (x ∷ xs) (inr m) = inr (Any-unmap P f xs m)

from_minus_infinity : (t : F64) → is_finite t ≡ true → le (minus infinity_bits) t ≡ true
unfolding le is_finite is_nan
from_minus_infinity (plus m) h = ground arith
from_minus_infinity (minus m) h = ground arith

to_infinity : (t : F64) → is_finite t ≡ true → le t (plus infinity_bits) ≡ true
unfolding le is_finite is_nan
to_infinity (plus m) h = ground arith
to_infinity (minus m) h = ground arith

all_in_range :
    (states : List TimestampedState)
    → Sorted state_time states
    → range_filter state_time (minus infinity_bits) (plus infinity_bits) states ≡ states
unfolding range_filter
all_in_range [] h = refl
all_in_range (s ∷ states) h =
    rw (from_minus_infinity s.timestamp_secs h.0, to_infinity s.timestamp_secs h.0)
      (ap (◌∷◌ s) (all_in_range states h.2))

-- The selectors of an aircraft's catalog.
selectors_of : Arithmetic → AircraftTimeSeries → List SeriesSelector
selectors_of a v = collect_schemas (schemas_of v) (collect_samples a v.states [])

infinite_range : le (minus infinity_bits) (plus infinity_bits) ≡ true
unfolding le is_nan
infinite_range = refl

visit_all_states :
    {R : Type 0} (s : TimeSeriesStore) (id : Str) (v : AircraftTimeSeries)
    (f : List TimestampedState → R)
    → IsValid s
    → lookup id s.series ≡ some v
    → visit_states_range s id (minus infinity_bits) (plus infinity_bits) f
      ≡ value (some (f v.states))
unfolding visit_states_range
visit_all_states s id v f h found =
    let sorted = (lookup-IsValid s id v h found).states in
    rw
      (
        found,
        visit_states_range,
        map_series,
        range_slice-range_filter state_time (minus infinity_bits) (plus infinity_bits) v.states
            infinite_range sorted,
        all_in_range v.states sorted,
      )
      refl

catalog_found :
    (a : Arithmetic) (s : TimeSeriesStore) (id : Str) (v : AircraftTimeSeries)
    → IsValid s
    → lookup id s.series ≡ some v
    → catalog a s id ≡ map_outcome ok (described_items (schemas_of v) (selectors_of a v))
unfolding catalog selectors_of get_telemetry_schemas
catalog_found a s id v h found =
    rw
      (
        visit_all_states s id v (λ states. collect_samples a states []) h found,
        catalog,
        found,
        get_telemetry_schemas,
      )
      refl

selectors_of-IsSelectable :
    (a : Arithmetic) (v : AircraftTimeSeries)
    → IsChecked v
    → All (IsSelectable (schemas_of v)) (selectors_of a v)
unfolding selectors_of
selectors_of-IsSelectable a v checked =
    collect_schemas-IsSelectable (schemas_of v) (collect_samples a v.states []) checked
      (collect_samples-IsSelectable (schemas_of v) a v.states [] tt)

items_of :
    (a : Arithmetic) (s : TimeSeriesStore) (id : Str) (v : AircraftTimeSeries)
    → IsValid s
    → IsChecked v
    → lookup id s.series ≡ some v
    → (items : List SeriesCatalogItem) × (catalog a s id ≡ value (ok items))
      × (map (λ i. i.selector) items ≡ selectors_of a v)
items_of a s id v h checked found =
    let (items, e, f) =
      described_items_lem (schemas_of v) (selectors_of a v)
        (selectors_of-IsSelectable a v checked) in
    (items, catalog_found a s id v h found ∙ ap (map_outcome ok) e, f)

-- In a store whose vectors are sorted by finite times, the catalog of an aircraft whose registered
-- schemas have passed the validation does not panic, and a query for this aircraft accepts each
-- selector that it lists: a standard field exists, a telemetry field is registered.
pub catalog-IsSelectable :
    (a : Arithmetic) (s : TimeSeriesStore) (id : Str) (v : AircraftTimeSeries)
    → IsValid s
    → IsChecked v
    → lookup id s.series ≡ some v
    → (items : List SeriesCatalogItem) × (catalog a s id ≡ value (ok items))
      × All (λ i. IsSelectable (schemas_of v) i.selector) items
catalog-IsSelectable a s id v h checked found =
    let (items, e, f) = items_of a s id v h checked found in
    (
      items,
      e,
      All-unmap (IsSelectable (schemas_of v)) (λ i. i.selector) items
          (subst (All (IsSelectable (schemas_of v))) (sym f)
            (selectors_of-IsSelectable a v checked)),
    )

state_selectors-Lists :
    (a : Arithmetic) (s : AircraftState) (x : SeriesSelector) (out : List SeriesSelector)
    → HasSome (extract_value a s x)
    → Lists x (collect_state_selectors a s out)
unfolding collect_state_selectors extract_value standard_value
state_selectors-Lists a s (standard path) out h =
    collect_propulsors-keeps (standard path) s.propulsors _ (
      collect_standard-Lists a s path standard_fields out
        (subst (Any (λ p. p ≡ path)) (arms_paths a) (take_arm-path path (standard_arms a) s h)) h)
state_selectors-Lists a s (propulsor id field) out h =
    collect_propulsors-Lists id field s.propulsors _ h
state_selectors-Lists a s (telemetry stream field) out h = absurd (cc)

samples-Lists :
    (a : Arithmetic) (states : List TimestampedState) (sample : TimestampedState)
    (x : SeriesSelector) (out : List SeriesSelector)
    → Any (λ s. s ≡ sample) states
    → HasSome (extract_value a sample.state x)
    → Lists x (collect_samples a states out)
unfolding collect_samples
samples-Lists a [] sample x out m h = absurd m
samples-Lists a (s ∷ states) sample x out (inl e) h = collect_samples-keeps x a states _ (
    state_selectors-Lists a s.state x out
      (subst (λ t. HasSome (extract_value a t.state x)) (sym e) h))
samples-Lists a (s ∷ states) sample x out (inr m) h = samples-Lists a states sample x _ m h

-- The selector has a value in a state of the aircraft, or names a field of its telemetry.
abbrev pub HasSeries : Arithmetic → AircraftTimeSeries → SeriesSelector → Type 0
HasSeries a v x =
    ((sample : TimestampedState) × (t : F64) × Any (λ y. y ≡ sample) v.states
      × (extract_value a sample.state x ≡ some t))
    ⊎ HasField x (schemas_of v)

selectors_of-Lists :
    (a : Arithmetic) (v : AircraftTimeSeries) (x : SeriesSelector)
    → HasSeries a v x
    → Lists x (selectors_of a v)
unfolding selectors_of
selectors_of-Lists a v x (inl (sample, t, m, e)) =
    let there : HasSome (extract_value a sample.state x) = rw e refl in
    collect_schemas-keeps x (schemas_of v) _ (samples-Lists a v.states sample x [] m there)
selectors_of-Lists a v x (inr field) = collect_schemas-Lists x (schemas_of v) _ field

-- In a store whose vectors are sorted by finite times, the catalog of an aircraft whose registered
-- schemas have passed the validation does not panic, and lists every selector that has a value in
-- some state of the aircraft and every field of every telemetry schema that it has registered.
pub catalog-Lists :
    (a : Arithmetic) (s : TimeSeriesStore) (id : Str) (v : AircraftTimeSeries) (x : SeriesSelector)
    → IsValid s
    → IsChecked v
    → lookup id s.series ≡ some v
    → HasSeries a v x
    → (items : List SeriesCatalogItem) × (catalog a s id ≡ value (ok items))
      × Any (λ i. i.selector ≡ x) items
catalog-Lists a s id v x h checked found has =
    let (items, f, g) = items_of a s id v h checked found in
    (
      items,
      f,
      Any-unmap (λ y. y ≡ x) (λ i. i.selector) items
          (subst (Any (λ y. y ≡ x)) (sym g) (selectors_of-Lists a v x has)),
    )
