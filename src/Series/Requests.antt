-- ===== src/Series/Requests.antt =====
-- What a query of `core/src/management/series.rs` returns for any request.
use fly_ruler_proto.Store.Append.{schemas_of}
use fly_ruler_proto.Base.Dict.{lookup}
use fly_ruler_proto.Pb.{TelemetryStreamSchema}
use fly_ruler_proto.Series.Sample.{then_outcome}
use fly_ruler_proto.Series.Answered.{answer_selections}
use fly_ruler_proto.Series.Answer.{series_of, refusal, missing_field}
use fly_ruler_proto.Series.GroupAnswer.{IsCountable}
use fly_ruler_proto.Float.{is_nan, lt, le, not_nan-of_le, not_lt-of_le, lt-of_not_le}
use fly_ruler_proto.Store.Valid.Steps.{IsValid}
use fly_ruler_proto.Series.Fields.{
  validate_selector, is_standard_field, standard_fields, telemetry_field,
}
use fly_ruler_proto.Series.Query.{query, validate_selectors, range_start, range_end}
use fly_ruler_proto.Store.{TimeSeriesStore}
use fly_ruler_proto.Base.Equality.{string_eq}
use fly_ruler_proto.Base.{
  [], ◌∷◌, none, some, length, List, ◌≡◌, ◌≤◌, ℕ, ◌⊎◌, ◌||◌, unwrap_or, map, All, eqb, ◌<◌, Any,
  ltb, not, Bool-cases, inl, false, inr, true, arith, leb, refl, ◌&&◌, ap, Option-cases, subst, sym,
}
use fly_ruler_proto.Timeline.{Outcome, value, panic}
use fly_ruler_proto.Series.{
  SeriesSelector, standard, propulsor, telemetry, SeriesResult, ok, err, SeriesError,
  aircraft_not_found, invalid_selection_count, invalid_max_points, invalid_time_range,
  unknown_standard_field, unknown_telemetry_field, SeriesQueryRequest, F64, SeriesQueryResponse,
  SeriesSelection, max_selections, Str, default_max_points, min_max_points, max_max_points,
}
use fly_ruler_proto.Series.Arithmetic.{Arithmetic, IsRounded}

abbrev pub points_wanted : SeriesQueryRequest → ℕ
points_wanted r = unwrap_or r.max_points default_max_points

-- The request is within the limits, its range is ordered and its standard fields exist.
pub record IsWellFormed (r : SeriesQueryRequest) : Type 0 where
  pub some_selected : 1 ≤ length r.selections
  pub few_selected : length r.selections ≤ max_selections
  pub enough_points : min_max_points ≤ points_wanted r
  pub few_points : points_wanted r ≤ max_max_points
  pub ordered : le (range_start r) (range_end r) ≡ true
  pub existing : All (λ x. validate_selector x.selector ≡ ok tt) r.selections

-- What a reported error says of the request and the store.
abbrev pub IsToBlame : TimeSeriesStore → SeriesQueryRequest → SeriesError → Type 0
IsToBlame s r invalid_selection_count =
    (length r.selections ≡ 0) ⊎ (max_selections < length r.selections)
IsToBlame s r invalid_max_points =
    (points_wanted r < min_max_points) ⊎ (max_max_points < points_wanted r)
IsToBlame s r invalid_time_range = le (range_start r) (range_end r) ≡ false
IsToBlame s r (unknown_standard_field path) =
    Any (λ x. validate_selector x.selector ≡ err (unknown_standard_field path)) r.selections
IsToBlame s r (aircraft_not_found id) =
    Any (λ x. refusal s x ≡ some (aircraft_not_found id)) r.selections
IsToBlame s r (unknown_telemetry_field stream field) =
    Any (λ x. refusal s x ≡ some (unknown_telemetry_field stream field)) r.selections

abbrev pub expected_response :
    Arithmetic → TimeSeriesStore → SeriesQueryRequest → SeriesQueryResponse
expected_response a s r = record {
  series = map (series_of a s (range_start r) (range_end r) (points_wanted r)) r.selections;
}

-- The outcome is the response to a request that can be answered, or an error that is to blame.
abbrev pub IsExplained :
    Arithmetic
    → TimeSeriesStore
    → SeriesQueryRequest
    → Outcome (SeriesResult SeriesQueryResponse)
    → Type 0
IsExplained a s r panic = ⊥
IsExplained a s r (value (ok found)) =
    IsWellFormed r × All (λ x. refusal s x ≡ none) r.selections × (found ≡ expected_response a s r)
IsExplained a s r (value (err e)) = IsToBlame s r e

validate_selector_lem :
    (x : SeriesSelector)
    → (validate_selector x ≡ ok tt)
      ⊎ ((path : Str) × (validate_selector x ≡ err (unknown_standard_field path)))
unfolding validate_selector
validate_selector_lem (standard path) = elim (Bool-cases (is_standard_field path standard_fields)) [
  | inl e ↦ inl (rw (e, validate_selector) refl)
  | inr e ↦ inr (path, rw (e, validate_selector) refl)
]
validate_selector_lem (propulsor id field) = inl refl
validate_selector_lem (telemetry stream field) = inl refl

validate_selectors_lem :
    (xs : List SeriesSelection)
    → ((validate_selectors xs ≡ ok tt) × All (λ x. validate_selector x.selector ≡ ok tt) xs)
      ⊎ ((path : Str) × (validate_selectors xs ≡ err (unknown_standard_field path))
          × Any (λ x. validate_selector x.selector ≡ err (unknown_standard_field path)) xs)
unfolding validate_selectors
validate_selectors_lem [] = inl (refl, tt)
validate_selectors_lem (x ∷ xs) = elim (validate_selector_lem x.selector) [
  | inl e ↦ elim (validate_selectors_lem xs) [
    | inl (v, h) ↦ inl (rw (e, validate_selectors) v, (e, h))
    | inr (path, v, h) ↦ inr (path, rw (e, validate_selectors) v, inr h)
  ]
  | inr (path, e) ↦ inr (path, rw (e, validate_selectors) refl, inl e)
]

ordered_lem :
    (start end : F64) → (is_nan start || (is_nan end || lt end start)) ≡ not (le start end)
ordered_lem start end = elim (Bool-cases (le start end)) [
  | inl e ↦ ground (arith, not_nan-of_le start end e, not_lt-of_le start end e)
  | inr e ↦ ground (arith, lt-of_not_le start end)
]

abbrev IsRefusal : SeriesError → Type 0
IsRefusal e =
    ((id : Str) × (e ≡ aircraft_not_found id))
    ⊎ ((stream : Str) × (field : Str) × (e ≡ unknown_telemetry_field stream field))

missing_field-IsRefusal :
    (schemas : List TelemetryStreamSchema) (x : SeriesSelector) (e : SeriesError)
    → missing_field schemas x ≡ some e
    → IsRefusal e
missing_field-IsRefusal schemas (standard path) e h = absurd (cc)
missing_field-IsRefusal schemas (propulsor id field) e h = absurd (cc)
missing_field-IsRefusal schemas (telemetry stream field) e h =
    elim (Option-cases (telemetry_field schemas stream field)) [
      | inl n ↦
          let g : some (unknown_telemetry_field stream field) ≡ some e =
            rw (n, missing_field) at h in
          inr (stream, field, cc)
      | inr (found, n) ↦ let g : none ≡ some e = rw (n, missing_field) at h in absurd (cc)
    ]

refusal-IsRefusal :
    (s : TimeSeriesStore) (x : SeriesSelection) (e : SeriesError)
    → refusal s x ≡ some e
    → IsRefusal e
unfolding refusal
refusal-IsRefusal s x e h = elim (Option-cases (lookup x.aircraft_id s.series)) [
  | inl n ↦
      let g : some (aircraft_not_found x.aircraft_id) ≡ some e = rw (n, refusal) at h in
      inl (x.aircraft_id, cc)
  | inr (v, n) ↦ missing_field-IsRefusal (schemas_of v) x.selector e (rw (n, refusal) at h)
]

refusal-IsToBlame :
    (s : TimeSeriesStore) (r : SeriesQueryRequest) (e : SeriesError) (xs : List SeriesSelection)
    → Any (λ x. refusal s x ≡ some e) r.selections
    → Any (λ x. refusal s x ≡ some e) xs
    → IsToBlame s r e
refusal-IsToBlame s r e [] all m = absurd m
refusal-IsToBlame s r e (x ∷ xs) all (inr m) = refusal-IsToBlame s r e xs all m
refusal-IsToBlame s r e (x ∷ xs) all (inl h) = elim (refusal-IsRefusal s x e h) [
  | inl (id, g) ↦
      subst (IsToBlame s r) (sym g)
        (subst (λ d. Any (λ y. refusal s y ≡ some d) r.selections) g all)
  | inr (stream, field, g) ↦
      subst (IsToBlame s r) (sym g)
        (subst (λ d. Any (λ y. refusal s y ≡ some d) r.selections) g all)
]

well_formed :
    (r : SeriesQueryRequest)
    → (eqb (length r.selections) 0 || ltb max_selections (length r.selections)) ≡ false
    → not (leb min_max_points (points_wanted r) && leb (points_wanted r) max_max_points) ≡ false
    → le (range_start r) (range_end r) ≡ true
    → All (λ x. validate_selector x.selector ≡ ok tt) r.selections
    → IsWellFormed r
well_formed r count points range known = record {
  some_selected = ground arith;
  few_selected = ground arith;
  enough_points = ground arith;
  few_points = ground arith;
  ordered = range;
  existing = known;
}

-- In a store whose vectors are sorted by finite times, with fewer than 2^53 states and telemetry
-- frames for each aircraft, for arithmetic that rounds as IEEE 754 does: no query panics. One that
-- succeeds was well formed, each of its selections could be answered, and the result is the series
-- of each selection in the order of the request. An error names what is wrong: the number of
-- selections or of points, the range, a selection whose standard field does not exist, whose
-- aircraft the store does not have, or whose telemetry field the aircraft has not registered.
pub query-IsExplained :
    (a : Arithmetic) (s : TimeSeriesStore) (r : SeriesQueryRequest)
    → IsRounded a
    → IsValid s
    → IsCountable s
    → IsExplained a s r (query a s r)
unfolding query
query-IsExplained a s r rounded valid countable =
    let n = length r.selections in
    let m = points_wanted r in
    let start = range_start r in
    let end = range_end r in
    elim (Bool-cases (eqb n 0 || ltb max_selections n)) [
      | inl wrong ↦ rw wrong (ground arith)
      | inr count ↦ elim (Bool-cases (not (leb min_max_points m && leb m max_max_points))) [
        | inl wrong ↦ rw (count, wrong) (ground arith)
        | inr points ↦ elim (Bool-cases (le start end)) [
          | inr wrong ↦ rw (count, points, ordered_lem start end, wrong) wrong
          | inl range ↦ elim (validate_selectors_lem r.selections) [
            | inr (path, v, m) ↦ rw (count, points, ordered_lem start end, range, v) m
            | inl (v, known) ↦
                elim (answer_selections a rounded s valid countable start end range m (ground arith)
                  r.selections) [
                    | inr (e, f, h) ↦
                        rw (count, points, ordered_lem start end, range, v, f, then_outcome)
                          (refusal-IsToBlame s r e r.selections h h)
                    | inl (output, e, f, h) ↦
                        rw (count, points, ordered_lem start end, range, v, e, then_outcome)
                          (
                            well_formed r count points range known,
                            h,
                            ap (λ series. record { series = series }) f,
                          )
                  ]
          ]
        ]
      ]
    ]

All-clash :
    {A : Type 0} (P Q : A → Type 0) (xs : List A)
    → ((x : A) → P x → Q x → ⊥)
    → All P xs
    → ¬ Any Q xs
All-clash P Q [] f h m = m
All-clash P Q (x ∷ xs) f h (inl q) = f x h.0 q
All-clash P Q (x ∷ xs) f h (inr m) = All-clash P Q xs f h.1 m

answered-not-IsToBlame :
    (s : TimeSeriesStore) (r : SeriesQueryRequest) (e : SeriesError)
    → IsWellFormed r
    → All (λ x. refusal s x ≡ none) r.selections
    → ¬ IsToBlame s r e
answered-not-IsToBlame s r invalid_selection_count w h b =
    ground (arith, w.some_selected, w.few_selected)
answered-not-IsToBlame s r invalid_max_points w h b = ground (arith, w.enough_points, w.few_points)
answered-not-IsToBlame s r invalid_time_range w h b = ground (arith, w.ordered)
answered-not-IsToBlame s r (unknown_standard_field path) w h b =
    All-clash (λ x. validate_selector x.selector ≡ ok tt)
      (λ x. validate_selector x.selector ≡ err (unknown_standard_field path)) r.selections
      (λ x p q. cc) w.existing b
answered-not-IsToBlame s r (aircraft_not_found id) w h b =
    All-clash (λ x. refusal s x ≡ none) (λ x. refusal s x ≡ some (aircraft_not_found id))
      r.selections (λ x p q. cc) h b
answered-not-IsToBlame s r (unknown_telemetry_field stream field) w h b =
    All-clash (λ x. refusal s x ≡ none)
      (λ x. refusal s x ≡ some (unknown_telemetry_field stream field)) r.selections (λ x p q. cc) h
      b

explained_answer :
    (a : Arithmetic) (s : TimeSeriesStore) (r : SeriesQueryRequest)
    (outcome : Outcome (SeriesResult SeriesQueryResponse))
    → IsWellFormed r
    → All (λ x. refusal s x ≡ none) r.selections
    → IsExplained a s r outcome
    → outcome ≡ value (ok (expected_response a s r))
explained_answer a s r panic w h x = absurd x
explained_answer a s r (value (ok found)) w h x = cc (x.2)
explained_answer a s r (value (err e)) w h x = absurd (answered-not-IsToBlame s r e w h x)

-- In a store whose vectors are sorted by finite times, with fewer than 2^53 states and telemetry
-- frames for each aircraft, for arithmetic that rounds as IEEE 754 does: a query within the limits
-- whose range is ordered and whose selections name standard fields that exist, aircraft of the
-- store and telemetry fields that they registered returns, in the order of the request, for each
-- selection what it gives alone: the finite values of a scan of the aircraft's states and then of
-- its telemetry in the range, their statistics, and their down-sampling to the requested number of
-- points.
pub query-eq-response :
    (a : Arithmetic) (s : TimeSeriesStore) (r : SeriesQueryRequest)
    → IsRounded a
    → IsValid s
    → IsCountable s
    → IsWellFormed r
    → All (λ x. refusal s x ≡ none) r.selections
    → query a s r ≡ value (ok (expected_response a s r))
query-eq-response a s r rounded valid countable w h =
    explained_answer a s r (query a s r) w h (query-IsExplained a s r rounded valid countable)
