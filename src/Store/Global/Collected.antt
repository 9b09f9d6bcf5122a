-- ===== src/Store/Global/Collected.antt =====
-- Which events the global event page of `core/src/store.rs` collects.
use fly_ruler_proto.Base.Equality.{string_eq}
use fly_ruler_proto.Timeline.Ranges.{range_slice-range_filter}
use fly_ruler_proto.Timeline.{range_filter}
use fly_ruler_proto.Store.Valid.Steps.{IsValid, lookup-IsValid}
use fly_ruler_proto.Float.{le}
use fly_ruler_proto.Base.{
  [], ◌∷◌, List, inl, inr, Bool-cases, none, some, ◌≡◌, ℕ, Any, Bool, length, filter, map, true,
  All, All-implies, ◌≤◌, All-map, ◌+◌, ap, arith, refl, ◌&&◌, Option-cases, ◌++◌, subst,
  Any-append_right, sym, ◌∙◌, All-append, Any-append_left, length-append, length-filter-le,
}
use fly_ruler_proto.Base.Dict.{lookup}
use fly_ruler_proto.Store.Global.{globalize, collect_events, value, range_slice}
use fly_ruler_proto.Store.{
  TimeSeriesStore, AircraftId, AircraftTimeSeries, TimestampedEvent, GlobalTimestampedEvent, F64,
  entry_or_default, event_time,
}

-- The event is one of an aircraft in the store.
abbrev pub IsStored : TimeSeriesStore → GlobalTimestampedEvent → Type 0
IsStored s g =
    (id : AircraftId) × (v : AircraftTimeSeries) × (e : TimestampedEvent) × (lookup id s.series
      ≡ some v)
    × Any (λ y. y ≡ e) v.events
    × (g ≡ globalize id e)

-- How many events the aircraft have.
abbrev pub event_total : TimeSeriesStore → List AircraftId → ℕ
event_total s [] = 0
event_total s (id ∷ ids) = length (entry_or_default s id).events + event_total s ids

module _ {A : Type 0} where
  pub filter-All :
      (p : A → Bool) (xs : List A) → All (λ x. (p x ≡ true) × Any (λ y. y ≡ x) xs) (filter p xs)
  filter-All p [] = tt
  filter-All p (x ∷ xs) =
      let rest =
        All-implies (λ z. (p z ≡ true) × Any (λ y. y ≡ z) xs)
          (λ z. (p z ≡ true) × Any (λ y. y ≡ z) (x ∷ xs)) (filter p xs) (λ z h. (h.0, inr h.1))
          (filter-All p xs) in
      elim (Bool-cases (p x)) [ inl b ↦ rw b ((b, inl refl), rest) | inr b ↦ rw b rest ]

  pub filter-Any :
      (p : A → Bool) (x : A) (xs : List A)
      → p x ≡ true
      → Any (λ y. y ≡ x) xs
      → Any (λ y. y ≡ x) (filter p xs)
  filter-Any p x [] b m = m
  filter-Any p x (y ∷ ys) b (inl e) = let c : p y ≡ true = rw e b in rw c (inl e)
  filter-Any p x (y ∷ ys) b (inr m) = elim (Bool-cases (p y)) [
    | inl c ↦ rw c (inr (filter-Any p x ys b m))
    | inr c ↦ rw c (filter-Any p x ys b m)
  ]

  pub map-Any :
      {B : Type 0} (f : A → B) (x : A) (xs : List A)
      → Any (λ y. y ≡ x) xs
      → Any (λ y. y ≡ f x) (map f xs)
  map-Any f x [] m = absurd m
  map-Any f x (y ∷ ys) (inl e) = inl (ap f e)
  map-Any f x (y ∷ ys) (inr m) = inr (map-Any f x ys m)

  pub length-map : {B : Type 0} (f : A → B) (xs : List A) → length (map f xs) ≡ length xs
  length-map f [] = refl
  length-map f (x ∷ xs) = omega (arith, length-map f xs)

module _ (s : TimeSeriesStore) (start end : F64) where
  abbrev pub IsInRange : GlobalTimestampedEvent → Type 0
  IsInRange g = IsStored s g × (le start g.timestamp_secs ≡ true) × (le g.timestamp_secs end ≡ true)

  abbrev pub Covers : List AircraftId → List GlobalTimestampedEvent → Type 0
  Covers ids gs =
      (id : AircraftId) (v : AircraftTimeSeries) (e : TimestampedEvent)
      → Any (λ y. y ≡ id) ids
      → lookup id s.series ≡ some v
      → Any (λ y. y ≡ e) v.events
      → le start e.timestamp_secs ≡ true
      → le e.timestamp_secs end ≡ true
      → Any (λ y. y ≡ globalize id e) gs

  abbrev pub Collected : List AircraftId → Type 0
  Collected ids =
      (gs : List GlobalTimestampedEvent) × (collect_events s start end ids ≡ value gs)
      × All IsInRange gs
      × Covers ids gs
      × (length gs ≤ event_total s ids)

  abbrev kept : AircraftTimeSeries → List TimestampedEvent
  kept v = filter (λ e. le start (event_time e) && le (event_time e) end) v.events

  kept-IsInRange :
      (id : AircraftId) (v : AircraftTimeSeries)
      → lookup id s.series ≡ some v
      → All IsInRange (map (globalize id) (kept v))
  kept-IsInRange id v found = All-map IsInRange (globalize id) (kept v) (
      All-implies
        (λ e.
          ((le start (event_time e) && le (event_time e) end) ≡ true) × Any (λ y. y ≡ e) v.events)
        (λ e. IsInRange (globalize id e)) (kept v)
        (λ e h. let b = h.0 in ((id, v, e, found, h.1, refl), ground arith, ground arith))
        (filter-All (λ e. le start (event_time e) && le (event_time e) end) v.events))

  -- An aircraft that the store does not have gives no events.
  skip :
      (id : AircraftId) (ids : List AircraftId) (gs : List GlobalTimestampedEvent)
      → lookup id s.series ≡ none
      → Covers ids gs
      → Covers (id ∷ ids) gs
  skip id ids gs f covers id' v e (inl same) found m a b =
      let missing : lookup id' s.series ≡ none = subst (λ k. lookup k s.series ≡ none) same f in
      let wrong : none ≡ some v = sym missing ∙ found in absurd (cc wrong)
  skip id ids gs f covers id' v e (inr among) found m a b = covers id' v e among found m a b

  add :
      (id : AircraftId) (v : AircraftTimeSeries) (ids : List AircraftId)
      (gs : List GlobalTimestampedEvent)
      → lookup id s.series ≡ some v
      → Covers ids gs
      → Covers (id ∷ ids) (map (globalize id) (kept v) ++ gs)
  add id v ids gs f covers id' w e (inr among) found m a b =
      Any-append_right (λ y. y ≡ globalize id' e) (map (globalize id) (kept v)) gs
        (covers id' w e among found m a b)
  add id v ids gs f covers id' w e (inl same) found m a b =
      let again : lookup id s.series ≡ some w =
        subst (λ k. lookup k s.series ≡ some w) (sym same) found in
      let both : some v ≡ some w = sym f ∙ again in
      let equal : v ≡ w = cc both in
      let among : Any (λ y. y ≡ e) v.events =
        subst (λ u. Any (λ y. y ≡ e) u.events) {x = w} {y = v} (sym equal) m in
      Any-append_left (λ y. y ≡ globalize id' e) (map (globalize id) (kept v)) gs
        (subst (λ k. Any (λ y. y ≡ globalize k e) (map (globalize id) (kept v))) same
          (map-Any (globalize id) e (kept v) (
            filter-Any (λ x. le start (event_time x) && le (event_time x) end) e v.events
              (ground arith) among)))

  pub collect_events_lem : IsValid s → le start end ≡ true → (ids : List AircraftId) → Collected ids
  unfolding collect_events range_filter
  collect_events_lem valid r [] = ([], refl, tt, (λ id v e m f n a b. m), omega arith)
  collect_events_lem valid r (id ∷ ids) =
      let (gs, run, sound, covers, few) = collect_events_lem valid r ids in
      elim (Option-cases (lookup id s.series)) [
        | inl f ↦ (
          gs,
          rw (f, run, collect_events) refl,
          sound,
          skip id ids gs f covers,
          omega (arith, few),
        )
        | inr (v, f) ↦
            let slice : range_slice event_time start end v.events ≡ value (kept v) =
              range_slice-range_filter event_time start end v.events r
                (lookup-IsValid s id v valid f).events in
            let here = map (globalize id) (kept v) in
            let size : length (entry_or_default s id).events ≡ length v.events =
              rw (f, entry_or_default) refl in
            (
              here ++ gs,
              rw (f, slice, run, collect_events) refl,
              All-append IsInRange here gs (kept-IsInRange id v f) sound,
              add id v ids gs f covers,
              omega (
                arith,
                few,
                size,
                length-append here gs,
                length-map (globalize id) (kept v),
                length-filter-le (λ e. le start (event_time e) && le (event_time e) end) v.events,
              ),
            )
      ]
