-- ===== src/Store/Pages.antt =====
-- Range pages of `core/src/store.rs` against the linear range queries.
use fly_ruler_proto.Timeline.Ranges.{range_slice-range_filter}
use fly_ruler_proto.Timeline.{range_filter, Sorted, value, map_outcome, range_slice}
use fly_ruler_proto.Float.{le}
use fly_ruler_proto.Base.Equality.{string_eq}
use fly_ruler_proto.Store.Valid.Steps.{IsValid, lookup-IsValid}
use fly_ruler_proto.Base.{
  ℕ, zero, suc, ◌≤◌, min, ◌≡◌, refl, ap, List, [], ◌∷◌, arith, length, take, drop, ◌-◌, length-drop,
  true, map_option, Option-cases, length-filter-le, ◌&&◌, inl, inr, subst, Option, unwrap_or,
}
use fly_ruler_proto.Store.{
  StorePage, TimeSeriesStore, AircraftId, F64, entry_or_default, lookup, AircraftTimeSeries,
  empty_series, state_time, event_time,
}
use fly_ruler_proto.Store.Query.{
  map_series, u64_max, page_slice, get_states_page, saturating_add, get_states_range,
  get_events_page, get_events_range,
}

-- The page that a caller expects: `limit` items from `offset` on, and the size of the whole.
abbrev pub page_of {ℓ} : {T : Type ℓ} → List T → ℕ → ℕ → StorePage T
page_of items offset limit = record {
  items = take limit (drop offset items);
  total = length items;
  offset = offset;
  limit = limit;
}

module _ {ℓ} {T : Type ℓ} where
  drop_past_end :
      (n m : ℕ) (xs : List T) → min n (length xs) ≡ min m (length xs) → drop n xs ≡ drop m xs
  drop_past_end zero zero xs h = refl
  drop_past_end zero (suc m) [] h = refl
  drop_past_end (suc n) zero [] h = refl
  drop_past_end (suc n) (suc m) [] h = refl
  drop_past_end zero (suc m) (x ∷ xs) h = absurd (omega arith)
  drop_past_end (suc n) zero (x ∷ xs) h = absurd (omega arith)
  drop_past_end (suc n) (suc m) (x ∷ xs) h = drop_past_end n m xs (omega arith)

  take_past_end :
      (n m : ℕ) (xs : List T) → min n (length xs) ≡ min m (length xs) → take n xs ≡ take m xs
  take_past_end zero zero xs h = refl
  take_past_end zero (suc m) [] h = refl
  take_past_end (suc n) zero [] h = refl
  take_past_end (suc n) (suc m) [] h = refl
  take_past_end zero (suc m) (x ∷ xs) h = absurd (omega arith)
  take_past_end (suc n) zero (x ∷ xs) h = absurd (omega arith)
  take_past_end (suc n) (suc m) (x ∷ xs) h = ap (◌∷◌ x) (take_past_end n m xs (omega arith))

  -- The page arithmetic of `page_slice` is that page, whatever the offset and the limit.
  pub page_slice_lem :
      (items : List T) (offset limit : ℕ)
      → length items ≤ u64_max
      → page_slice items offset limit ≡ page_of items offset limit
  unfolding page_slice
  page_slice_lem items offset limit h =
      let start = min offset (length items) in
      ground (
        arith,
        drop_past_end start offset items (omega arith),
        take_past_end (min (saturating_add start limit) (length items) - start) limit
            (drop start items) (omega (arith, length-drop start items)),
      )

module _ {A : Type 0} (key : A → F64) where
  range_page :
      (start end : F64) (offset limit : ℕ) (xs : List A)
      → Sorted key xs
      → length xs ≤ u64_max
      → le start end ≡ true
      → map_outcome (λ ys. page_slice ys offset limit) (range_slice key start end xs)
        ≡ value (page_of (range_filter key start end xs) offset limit)
  unfolding range_filter
  range_page start end offset limit xs s small r =
      rw (range_slice-range_filter key start end xs r s) (
        ap value (
          page_slice_lem (range_filter key start end xs) offset limit
            (omega (arith, length-filter-le (λ s. le start (key s) && le (key s) end) xs))))

-- In a store whose vectors are sorted by finite times, for an aircraft with at most 2^64 - 1
-- states and a range that is not reversed, a page of states does not panic and holds at most limit
-- states from offset on of those that the linear range query returns, with the size of the whole
-- as its total; there is none exactly if that query finds no such aircraft.
pub get_states_page-get_states_range :
    (s : TimeSeriesStore) (id : AircraftId) (start end : F64) (offset limit : ℕ)
    → IsValid s
    → length (entry_or_default s id).states ≤ u64_max
    → le start end ≡ true
    → get_states_page s id start end offset limit
      ≡ value (map_option (λ xs. page_of xs offset limit) (get_states_range s id start end))
unfolding get_states_page get_states_range
get_states_page-get_states_range s id start end offset limit h small r =
    elim (Option-cases (lookup id s.series)) [
      | inl e ↦ rw (e, map_series)
      | inr (v, e) ↦
          let small' : length v.states ≤ u64_max =
            subst
              (λ (o : Option AircraftTimeSeries).
                length (unwrap_or o empty_series).states ≤ u64_max)
              e small in
          rw (
            e,
            map_series,
            range_page state_time start end offset limit v.states (lookup-IsValid s id v h e).states
                small' r,
          )
    ]

-- In a store whose vectors are sorted by finite times, for an aircraft with at most 2^64 - 1
-- events and a range that is not reversed, a page of events does not panic and holds at most limit
-- events from offset on of those that the linear range query returns, with the size of the whole
-- as its total; there is none exactly if that query finds no such aircraft.
pub get_events_page-get_events_range :
    (s : TimeSeriesStore) (id : AircraftId) (start end : F64) (offset limit : ℕ)
    → IsValid s
    → length (entry_or_default s id).events ≤ u64_max
    → le start end ≡ true
    → get_events_page s id start end offset limit
      ≡ value (map_option (λ xs. page_of xs offset limit) (get_events_range s id start end))
unfolding get_events_page get_events_range
get_events_page-get_events_range s id start end offset limit h small r =
    elim (Option-cases (lookup id s.series)) [
      | inl e ↦ rw (e, map_series)
      | inr (v, e) ↦
          let small' : length v.events ≤ u64_max =
            subst
              (λ (o : Option AircraftTimeSeries).
                length (unwrap_or o empty_series).events ≤ u64_max)
              e small in
          rw (
            e,
            map_series,
            range_page event_time start end offset limit v.events (lookup-IsValid s id v h e).events
                small' r,
          )
    ]
