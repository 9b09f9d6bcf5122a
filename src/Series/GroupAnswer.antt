-- ===== src/Series/GroupAnswer.antt =====
-- What a query answers for the group of one aircraft.
use fly_ruler_proto.Timeline.Ranges.{range_slice-range_filter}
use fly_ruler_proto.Store.Append.{schemas_of}
use fly_ruler_proto.Series.Grouped.{IsPlaced}
use fly_ruler_proto.Store.Query.{
  visit_telemetry_range, visit_states_range, get_telemetry_schemas, map_series,
}
use fly_ruler_proto.Series.Collected.{length-points_of, visit_states_lem, visit_telemetry_lem}
use fly_ruler_proto.Series.Fields.{telemetry_field}
use fly_ruler_proto.Series.Sampled.{lttb-IsSampled}
use fly_ruler_proto.Series.Answer.{
  series_of, points_of, sampled, missing_field, refusal, state_points,
}
use fly_ruler_proto.Series.Written.{Fits, Extends, is_written, write_output_lem}
use fly_ruler_proto.Series.Sample.{lttb, then_outcome}
use fly_ruler_proto.Float.{le}
use fly_ruler_proto.Pb.{TelemetryStreamSchema}
use fly_ruler_proto.Base.Dict.{AllValues, lookup, AllValues-lookup}
use fly_ruler_proto.Store.Valid.Steps.{IsValid, lookup-IsValid}
use fly_ruler_proto.Store.{
  TimeSeriesStore, AircraftTimeSeries, TimestampedTelemetryFrame, TimestampedState, telemetry_time,
  state_time,
}
use fly_ruler_proto.Series.Query.{
  unregistered, Slot, series_data, write_outputs, answer_group, visit_telemetry, visit_states,
  no_points,
}
use fly_ruler_proto.Base.Equality.{string_eq, Str}
use fly_ruler_proto.Base.{
  [], ◌∷◌, none, some, List, length, ◌≡◌, ◌+◌, ◌<◌, true, All, ℕ, ◌≤◌, ◌⊎◌, Option, map, Any, inl,
  inr, Option-cases, arith, refl, get_elem?, ◌∙◌, ap, suc, zero,
}
use fly_ruler_proto.Timeline.{value, range_filter, map_outcome}
use fly_ruler_proto.Series.{
  SeriesSelector, standard, propulsor, telemetry, SeriesSelection, F64, SeriesError, SeriesData,
  unknown_telemetry_field, Point, err, ok,
}
use fly_ruler_proto.Series.Arithmetic.{Arithmetic, IsRounded, exact_limit}

-- Few enough samples for exact indices.
abbrev pub IsCountable : TimeSeriesStore → Type 0
IsCountable s = AllValues (λ v. length v.states + length v.telemetry < exact_limit) s.series

abbrev pub selection : Str → Slot → SeriesSelection
selection id e = record { aircraft_id = id; selector = e.1 }

pub unregistered_lem :
    (schemas : List TelemetryStreamSchema) (entries : List Slot)
    → ((unregistered schemas entries ≡ none) × All (λ e. missing_field schemas e.1 ≡ none) entries)
      ⊎ ((e : SeriesError) × (unregistered schemas entries ≡ some e)
          × Any (λ x. missing_field schemas x.1 ≡ some e) entries)
unfolding unregistered
unregistered_lem schemas [] = inl (refl, tt)
unregistered_lem schemas ((i, standard path) ∷ entries) = elim (unregistered_lem schemas entries) [
  | inl (u, h) ↦ inl (u, (refl, h))
  | inr (e, u, h) ↦ inr (e, u, inr h)
]
unregistered_lem schemas ((i, propulsor id field) ∷ entries) =
    elim (unregistered_lem schemas entries) [
      | inl (u, h) ↦ inl (u, (refl, h))
      | inr (e, u, h) ↦ inr (e, u, inr h)
    ]
unregistered_lem schemas ((i, telemetry stream field) ∷ entries) =
    elim (Option-cases (telemetry_field schemas stream field)) [
      | inl n ↦ inr (
        unknown_telemetry_field stream field,
        rw (n, unregistered) refl,
        inl (rw (n, missing_field) refl),
      )
      | inr (found, n) ↦ elim (unregistered_lem schemas entries) [
        | inl (u, h) ↦ inl (rw (n, unregistered) u, (rw (n, missing_field) refl, h))
        | inr (e, u, h) ↦ inr (e, rw (n, unregistered) u, inr h)
      ]
    ]

get_elem?-map :
    {A B : Type 0} (f : A → B) (xs : List A) (i : ℕ) (x : A)
    → get_elem? xs i ≡ some x
    → get_elem? (map f xs) i ≡ some (f x)
get_elem?-map f [] i x e = absurd (cc)
get_elem?-map f (y ∷ xs) zero x e = cc
get_elem?-map f (y ∷ xs) (suc i) x e = get_elem?-map f xs i x e

module _ (a : Arithmetic) (r : IsRounded a) (s : TimeSeriesStore) (valid : IsValid s)
    (countable : IsCountable s) (start end : F64) (ordered : le start end ≡ true) (max_points : ℕ)
    (enough : 3 ≤ max_points) (selections : List SeriesSelection) where
  abbrev pub results : List SeriesData
  results = map (series_of a s start end max_points) selections

  lttb_lem :
      (v : AircraftTimeSeries) (x : SeriesSelector)
      → length v.states + length v.telemetry < exact_limit
      → lttb a (points_of a v start end x) max_points
        ≡ value (sampled a (points_of a v start end x) max_points)
  lttb_lem v x few =
      let (out, e, h) =
        lttb-IsSampled a (points_of a v start end x) max_points r enough
          (omega (arith, length-points_of a v start end x)) in
      rw e refl

  module _ (id : Str) (v : AircraftTimeSeries) (found : lookup id s.series ≡ some v) where
    visit_states_range_lem :
        {R : Type 0} (f : List TimestampedState → R)
        → visit_states_range s id start end f
          ≡ value (some (f (range_filter state_time start end v.states)))
    unfolding visit_states_range
    visit_states_range_lem f = rw (
      found,
      visit_states_range,
      map_series,
      range_slice-range_filter state_time start end v.states ordered
          (lookup-IsValid s id v valid found).states,
    )

    visit_telemetry_range_lem :
        {R : Type 0} (f : List TimestampedTelemetryFrame → R)
        → visit_telemetry_range s id start end f
          ≡ value (some (f (range_filter telemetry_time start end v.telemetry)))
    unfolding visit_telemetry_range
    visit_telemetry_range_lem f = rw (
      found,
      visit_telemetry_range,
      map_series,
      range_slice-range_filter telemetry_time start end v.telemetry ordered
          (lookup-IsValid s id v valid found).telemetry,
    )

    get_telemetry_schemas_lem : get_telemetry_schemas s id ≡ some (schemas_of v)
    unfolding get_telemetry_schemas
    get_telemetry_schemas_lem = rw found

    few_samples : length v.states + length v.telemetry < exact_limit
    few_samples =
        AllValues-lookup (λ w. length w.states + length w.telemetry < exact_limit) id v s.series
          countable found

    series_of_lem :
        (e : Slot)
        → series_of a s start end max_points (selection id e)
          ≡ series_data id e.1
              (points_of a v start end e.1)
              (sampled a (points_of a v start end e.1) max_points)
    unfolding series_of
    series_of_lem e = rw found

    pub write_outputs_lem :
        (entries : List Slot) (output : List (Option SeriesData))
        → All (IsPlaced selections id) entries
        → Fits output results
        → (further : List (Option SeriesData)) × (write_outputs a id max_points entries
              (map (λ e. points_of a v start end e.1) entries)
              output
            ≡ value further)
          × Fits further results
          × Extends output further
          × All (λ e. is_written e.0 further ≡ true) entries
    unfolding write_outputs
    write_outputs_lem [] output p f = (output, refl, f, λ j w. w, tt)
    write_outputs_lem (e ∷ entries) output p f =
        let here =
          get_elem?-map (series_of a s start end max_points) selections e.0 (selection id e) p.0
          ∙ ap some (series_of_lem e) in
        let (next, w, g, x, i) = write_output_lem e.0 _ output results here f in
        let (further, u, h, y, all) = write_outputs_lem entries next p.1 g in
        (further, rw (lttb_lem v e.1 few_samples, w) u, h, λ j k. y j (x j k), (y e.0 i, all))

    pub refusal_lem : (e : Slot) → refusal s (selection id e) ≡ missing_field (schemas_of v) e.1
    unfolding refusal
    refusal_lem e = rw (found, refusal)

    pub visited : List Slot → List (List Point)
    visited entries =
        visit_telemetry a (schemas_of v) (range_filter telemetry_time start end v.telemetry) entries
          (visit_states a (range_filter state_time start end v.states) entries (no_points entries))

    pub visited_lem :
        (entries : List Slot) → visited entries ≡ map (λ e. points_of a v start end e.1) entries
    unfolding visited points_of
    visited_lem entries =
        rw (visit_states_lem a (range_filter state_time start end v.states) (λ e. []) entries) (
          visit_telemetry_lem a (schemas_of v) (range_filter telemetry_time start end v.telemetry)
            (λ e. state_points a e.1 (range_filter state_time start end v.states)) entries)

    pub answer_group-visited :
        (entries : List Slot) (output : List (Option SeriesData))
        → unregistered (schemas_of v) entries ≡ none
        → answer_group a s start end max_points id entries output
          ≡ map_outcome ok (write_outputs a id max_points entries (visited entries) output)
    unfolding answer_group visited
    answer_group-visited entries output u =
        rw
          (
            visit_states_range_lem (λ states. visit_states a states entries (no_points entries)),
            then_outcome,
            get_telemetry_schemas_lem,
            u,
            visit_telemetry_range_lem (λ frames. visit_telemetry a (schemas_of v) frames entries (
                visit_states a (range_filter state_time start end v.states) entries
                  (no_points entries))),
          )
          refl

    pub answer_group_refused :
        (entries : List Slot) (output : List (Option SeriesData)) (e : SeriesError)
        → unregistered (schemas_of v) entries ≡ some e
        → answer_group a s start end max_points id entries output ≡ value (err e)
    unfolding answer_group
    answer_group_refused entries output e u =
        rw
          (
            visit_states_range_lem (λ states. visit_states a states entries (no_points entries)),
            then_outcome,
            get_telemetry_schemas_lem,
            u,
          )
          refl
