-- ===== src/Series/Answered.antt =====
-- A query answers each selection as if it stood alone, in the order of the request.
use fly_ruler_proto.Store.Append.{schemas_of}
use fly_ruler_proto.Series.Answer.{series_of, refusal, missing_field}
use fly_ruler_proto.Series.Grouped.{
  IsPlaced, Groups, Occupied, EveryEntry, SomeEntry, group_selections-IsPlaced,
  EveryEntry-SomeEntry, group_selections_cover,
}
use fly_ruler_proto.Series.Written.{is_written, Fits, Extends, Fits-map, flatten_lem}
use fly_ruler_proto.Series.Sample.{then_outcome}
use fly_ruler_proto.Float.{le}
use fly_ruler_proto.Base.Dict.{lookup}
use fly_ruler_proto.Series.GroupAnswer.{
  IsCountable, selection, refusal_lem, unregistered_lem, write_outputs_lem, answer_group-visited,
  visited_lem, answer_group_refused,
}
use fly_ruler_proto.Store.Valid.Steps.{IsValid}
use fly_ruler_proto.Series.Query.{
  answer_group, Slot, visit_states, no_points, answer_groups, group_selections, flatten,
}
use fly_ruler_proto.Store.{TimeSeriesStore, TimestampedState, AircraftTimeSeries}
use fly_ruler_proto.Store.Query.{visit_states_range, map_series}
use fly_ruler_proto.Base.Equality.{string_eq, Str}
use fly_ruler_proto.Base.{
  [], ◌∷◌, none, some, zero, suc, List, ℕ, ◌<◌, get_elem?, ◌≡◌, length, Option, true, Any, All,
  arith, inl, ◌≤◌, refl, subst, inr, map, ◌⊎◌, Option-cases, ◌∙◌, All-implies, ap,
}
use fly_ruler_proto.Timeline.{value, map_outcome}
use fly_ruler_proto.Series.{
  ok, err, aircraft_not_found, F64, SeriesData, SeriesSelection, SeriesError,
}
use fly_ruler_proto.Series.Arithmetic.{Arithmetic, IsRounded}

Any-get_elem? :
    {A : Type 0} (P : A → Type 0) (xs : List A) (i : ℕ) (x : A)
    → get_elem? xs i ≡ some x
    → P x
    → Any P xs
Any-get_elem? P [] i x e p = absurd (cc)
Any-get_elem? P (y ∷ xs) zero x e p = let same : x ≡ y = cc in inl (subst P same p)
Any-get_elem? P (y ∷ xs) (suc i) x e p = inr (Any-get_elem? P xs i x e p)

All-get_elem? :
    {A : Type 0} (P : A → Type 0) (xs : List A)
    → ((i : ℕ) (x : A) → i < length xs → get_elem? xs i ≡ some x → P x)
    → All P xs
All-get_elem? P [] f = tt
All-get_elem? P (x ∷ xs) f =
    (f 0 x (omega arith) refl, All-get_elem? P xs (λ i y h e. f (suc i) y (omega arith) e))

length-map : {A B : Type 0} (f : A → B) (xs : List A) → length (map f xs) ≡ length xs
length-map f [] = refl
length-map f (x ∷ xs) = ap suc (length-map f xs)

same_place :
    {A : Type 0} (xs : List A) (i j : ℕ) (x y : A) (P : A → Type 0)
    → i ≡ j
    → get_elem? xs i ≡ some x
    → get_elem? xs j ≡ some y
    → P x
    → P y
same_place xs i j x y P e f g p =
    let there : get_elem? xs j ≡ some x = subst (λ k. get_elem? xs k ≡ some x) e f in
    let same : x ≡ y = cc in subst P same p

visit_states_range_missing :
    {R : Type 0} (s : TimeSeriesStore) (id : Str) (start end : F64) (f : List TimestampedState → R)
    → lookup id s.series ≡ none
    → visit_states_range s id start end f ≡ value none
unfolding visit_states_range
visit_states_range_missing s id start end f e = rw (e, visit_states_range, map_series)

answer_group_missing :
    (a : Arithmetic) (s : TimeSeriesStore) (start end : F64) (max_points : ℕ) (id : Str)
    (entries : List Slot) (output : List (Option SeriesData))
    → lookup id s.series ≡ none
    → answer_group a s start end max_points id entries output ≡ value (err (aircraft_not_found id))
unfolding answer_group
answer_group_missing a s start end max_points id entries output e =
    rw
      (
        visit_states_range_missing s id start end
            (λ states. visit_states a states entries (no_points entries)) e,
        then_outcome,
      )
      refl

module _ (a : Arithmetic) (r : IsRounded a) (s : TimeSeriesStore) (valid : IsValid s)
    (countable : IsCountable s) (start end : F64) (ordered : le start end ≡ true) (max_points : ℕ)
    (enough : 3 ≤ max_points) (selections : List SeriesSelection) where
  abbrev answers : List SeriesData
  answers = map (series_of a s start end max_points) selections

  abbrev IsSettled : List (Option SeriesData) → Str → Slot → Type 0
  IsSettled output id e =
      (is_written e.0 output ≡ true)
      × (refusal s (selection id e) ≡ none)
      × IsPlaced selections id e

  abbrev IsRefused : SeriesError → Str → Slot → Type 0
  IsRefused e id x = refusal s (selection id x) ≡ some e

  settle :
      (id : Str) (v : AircraftTimeSeries) (found : lookup id s.series ≡ some v)
      (output : List (Option SeriesData)) (entries : List Slot)
      → All (IsPlaced selections id) entries
      → All (λ e. is_written e.0 output ≡ true) entries
      → All (λ e. missing_field (schemas_of v) e.1 ≡ none) entries
      → All (IsSettled output id) entries
  settle id v found output [] p w m = tt
  settle id v found output (e ∷ entries) p w m = (
    (
      w.0,
      refusal_lem a r s valid countable start end ordered max_points enough selections id v found e
          ∙ m.0,
      p.0,
    ),
    settle id v found output entries p.1 w.1 m.1,
  )

  refuse :
      (id : Str) (v : AircraftTimeSeries) (found : lookup id s.series ≡ some v) (e : SeriesError)
      (entries : List Slot)
      → Any (λ x. missing_field (schemas_of v) x.1 ≡ some e) entries
      → Any (IsRefused e id) entries
  refuse id v found e [] m = absurd m
  refuse id v found e (x ∷ entries) (inl m) = inl (
      refusal_lem a r s valid countable start end ordered max_points enough selections id v found x
      ∙ m)
  refuse id v found e (x ∷ entries) (inr m) = inr (refuse id v found e entries m)

  -- A group is answered in full, or refused for one of its selections.
  answer_group_lem :
      (id : Str) (entries : List Slot) (output : List (Option SeriesData))
      → 0 < length entries
      → All (IsPlaced selections id) entries
      → Fits output answers
      → ((further : List (Option SeriesData)) × (answer_group a s start end max_points id entries
              output
            ≡ value (ok further))
          × Fits further answers
          × Extends output further
          × All (IsSettled further id) entries)
        ⊎ ((e : SeriesError) × (answer_group a s start end max_points id entries output
              ≡ value (err e))
            × Any (IsRefused e id) entries)
  unfolding refusal
  answer_group_lem id [] output n p f = absurd (omega arith)
  answer_group_lem id (x ∷ entries) output n p f = elim (Option-cases (lookup id s.series)) [
    | inl missing ↦ inr (
      aircraft_not_found id,
      answer_group_missing a s start end max_points id (x ∷ entries) output missing,
      inl (rw (missing, refusal) refl),
    )
    | inr (v, found) ↦ elim (unregistered_lem (schemas_of v) (x ∷ entries)) [
      | inl (u, m) ↦
          let (further, w, g, ext, all) =
            write_outputs_lem a r s valid countable start end ordered max_points enough selections
              id v found (x ∷ entries) output p f in
          inl (
            further,
            answer_group-visited a r s valid countable start end ordered max_points enough
                  selections id v found (x ∷ entries) output u
                ∙ rw
                    (visited_lem a r s valid countable start end ordered max_points enough
                      selections id v found (x ∷ entries))
                    (ap (map_outcome ok) w),
            g,
            ext,
            settle id v found further (x ∷ entries) p all m,
          )
      | inr (e, u, m) ↦ inr (
        e,
        answer_group_refused a r s valid countable start end ordered max_points enough selections id
            v found (x ∷ entries) output e u,
        refuse id v found e (x ∷ entries) m,
      )
    ]
  ]

  answer_groups_lem :
      (groups : Groups) (output : List (Option SeriesData))
      → Occupied groups
      → EveryEntry (IsPlaced selections) groups
      → Fits output answers
      → ((further : List (Option SeriesData)) × (answer_groups a s start end max_points groups
              output
            ≡ value (ok further))
          × Fits further answers
          × Extends output further
          × EveryEntry (IsSettled further) groups)
        ⊎ ((e : SeriesError) × (answer_groups a s start end max_points groups output
              ≡ value (err e))
            × SomeEntry (IsRefused e) groups)
  unfolding answer_groups
  answer_groups_lem [] output o p f = inl (output, refl, f, (λ j w. w), tt)
  answer_groups_lem ((id, entries) ∷ groups) output o p f =
      elim (answer_group_lem id entries output o.0 p.0 f) [
        | inr (e, w, m) ↦ inr (e, rw (w, then_outcome) refl, inl m)
        | inl (next, w, g, ext, all) ↦ elim (answer_groups_lem groups next o.1 p.1 g) [
          | inr (e, u, m) ↦ inr (e, rw (w, then_outcome) u, inr m)
          | inl (further, u, h, more, rest) ↦ inl (
            further,
            rw (w, then_outcome) u,
            h,
            (λ j k. more j (ext j k)),
            (
              All-implies (IsSettled next id) (IsSettled further id) entries
                  (λ e k. (more e.0 k.0, k.1, k.2)) all,
              rest,
            ),
          )
        ]
      ]

  -- The groups of a request are answered in full, or refused for one of its selections.
  pub answer_selections :
      ((output : List (Option SeriesData)) × (answer_groups a s start end max_points
            (group_selections 0 selections [])
            (map (λ x. none) selections)
          ≡ value (ok output))
        × (flatten output ≡ answers)
        × All (λ x. refusal s x ≡ none) selections)
      ⊎ ((e : SeriesError) × (answer_groups a s start end max_points
              (group_selections 0 selections [])
              (map (λ x. none) selections)
            ≡ value (err e))
          × Any (λ x. refusal s x ≡ some e) selections)
  answer_selections =
      let groups = group_selections 0 selections [] in
      let (placed, occupied) = group_selections-IsPlaced selections in
      elim (answer_groups_lem groups (map (λ x. none) selections) occupied placed
        (Fits-map (series_of a s start end max_points) selections)) [
          | inr (e, w, m) ↦ inr (
            e,
            w,
            EveryEntry-SomeEntry (IsPlaced selections) (IsRefused e) groups
                (λ id x p q.
                  Any-get_elem? (λ y. refusal s y ≡ some e) selections x.0 (selection id x) p q)
                placed m,
          )
          | inl (output, w, fits, ext, all) ↦ inl (
            output,
            w,
            flatten_lem output answers fits (λ j h.
                EveryEntry-SomeEntry (IsSettled output) (λ id x. x.0 ≡ j) groups
                  (λ id x k q. subst (λ i. is_written i output ≡ true) q k.0) all
                  (group_selections_cover selections j
                    (omega (arith, length-map (series_of a s start end max_points) selections)))),
            All-get_elem? (λ x. refusal s x ≡ none) selections
                (λ j x h g.
                  EveryEntry-SomeEntry (IsSettled output) (λ id y. y.0 ≡ j) groups
                    (λ id y k q.
                      same_place selections y.0 j (selection id y) x (λ z. refusal s z ≡ none) q k.2
                        g k.1)
                    all (group_selections_cover selections j h)),
          )
        ]
