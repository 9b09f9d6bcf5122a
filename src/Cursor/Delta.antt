-- ===== src/Cursor/Delta.antt =====
-- The events that the publisher of the cursor stream sends a subscriber for a step of its cursor.
use fly_ruler_proto.Float.{not_lt-of_le, le-of_lt, F64, le, lt}
use fly_ruler_proto.Store.Global.Collected.{
  Covers, IsStored, IsInRange, event_total, filter-All, filter-Any, collect_events_lem,
}
use fly_ruler_proto.Store.Summary.{str_lt, get_aircraft_ids, sort_by}
use fly_ruler_proto.Base.Equality.{◌==◌, string_eq}
use fly_ruler_proto.Timeline.{value}
use fly_ruler_proto.Store.Query.{u64_max, page_slice}
use fly_ruler_proto.Store.Valid.Steps.{IsValid}
use fly_ruler_proto.Base.{
  [], ◌∷◌, List, inl, inr, Bool-cases, some, ◌≡◌, All, Any, map, true, ◌≤◌, arith, take,
  take_of_length-le, All-implies, ap, filter, All-Any, drop, refl, ◌&&◌, Bool, Option-cases,
}
use fly_ruler_proto.Base.Dict.{lookup}
use fly_ruler_proto.Store.{
  TimeSeriesStore, AircraftId, AircraftTimeSeries, TimestampedEvent, GlobalTimestampedEvent,
  entry_or_default,
}
use fly_ruler_proto.Store.Global.{globalize, event_before, get_global_events_page}
use fly_ruler_proto.Store.Summary.Sorted.{sort_by-All, sort_by-Any, length-sort_by}
use fly_ruler_proto.Store.Pages.{page_slice_lem, page_of}
use fly_ruler_proto.Cursor.Events.{delta_events, delta_between}

abbrev pub IsWanted : TimeSeriesStore → F64 → F64 → GlobalTimestampedEvent → Type 0
IsWanted s previous current g =
    IsStored s g × (lt previous g.timestamp_secs ≡ true) × (le g.timestamp_secs current ≡ true)

abbrev pub HasWanted : TimeSeriesStore → F64 → F64 → List GlobalTimestampedEvent → Type 0
HasWanted s previous current gs =
    (id : AircraftId) (v : AircraftTimeSeries) (e : TimestampedEvent)
    → lookup id s.series ≡ some v
    → Any (λ y. y ≡ e) v.events
    → lt previous e.timestamp_secs ≡ true
    → le e.timestamp_secs current ≡ true
    → Any (λ y. y ≡ globalize id e) gs

-- No event but those of the aircraft in the store after `previous` and up to `current`, and all of
-- these.
abbrev pub IsDelta : TimeSeriesStore → F64 → F64 → List GlobalTimestampedEvent → Type 0
IsDelta s previous current gs =
    All (IsWanted s previous current) gs
    × ((id : AircraftId)
        → All (λ e. Any (λ y. y ≡ globalize id e) gs)
            (filter (λ e. lt previous e.timestamp_secs && le e.timestamp_secs current)
              (entry_or_default s id).events))

id_listed :
    (id : AircraftId) (v : AircraftTimeSeries) (m : List (AircraftId × AircraftTimeSeries))
    → lookup id m ≡ some v
    → Any (λ y. y ≡ id) (map (λ e. e.0) m)
unfolding lookup
id_listed id v [] f = absurd (cc f)
id_listed id v (e ∷ m) f = elim (Bool-cases (e.0 == id)) [
  | inl same ↦ inl ((string_eq.decides e.0 id).0 same)
  | inr other ↦ inr (id_listed id v m (rw (other, lookup) at f))
]

abbrev new_events : F64 → List GlobalTimestampedEvent → List GlobalTimestampedEvent
new_events previous gs = filter (λ g. lt previous g.timestamp_secs) (sort_by event_before gs)

new_events-All :
    (s : TimeSeriesStore) (previous current : F64) (gs : List GlobalTimestampedEvent)
    → All (IsInRange s previous current) gs
    → All (IsWanted s previous current) (new_events previous gs)
new_events-All s previous current gs sound =
    All-implies
      (λ g. (lt previous g.timestamp_secs ≡ true) × Any (λ y. y ≡ g) (sort_by event_before gs))
      (IsWanted s previous current) (new_events previous gs)
      (λ g h.
        let found =
          All-Any (IsInRange s previous current) g (sort_by event_before gs)
            (sort_by-All event_before (IsInRange s previous current) gs sound) h.1 in
        (found.0, h.0, found.2))
      (filter-All (λ g. lt previous g.timestamp_secs) (sort_by event_before gs))

new_events-Covers :
    (s : TimeSeriesStore) (previous current : F64) (gs : List GlobalTimestampedEvent)
    → Covers s previous current (get_aircraft_ids s) gs
    → HasWanted s previous current (new_events previous gs)
unfolding get_aircraft_ids
new_events-Covers s previous current gs covers id v e found m after before =
    let listed =
      sort_by-Any str_lt (λ y. y ≡ id) (map (λ e. e.0) s.series) (id_listed id v s.series found) in
    filter-Any (λ g. lt previous g.timestamp_secs) (globalize id e) (sort_by event_before gs) after
      (sort_by-Any event_before (λ y. y ≡ globalize id e) gs
        (covers id v e listed found m (le-of_lt previous e.timestamp_secs after) before))

HasWanted-All :
    (s : TimeSeriesStore) (previous current : F64) (gs : List GlobalTimestampedEvent)
    → HasWanted s previous current gs
    → (id : AircraftId)
    → All
        (λ e. Any (λ y. y ≡ globalize id e) gs)
        (filter
          (λ e. lt previous e.timestamp_secs && le e.timestamp_secs current)
          (entry_or_default s id).events)
HasWanted-All s previous current gs h id =
    let test : TimestampedEvent → Bool =
      λ e. lt previous e.timestamp_secs && le e.timestamp_secs current in
    elim (Option-cases (lookup id s.series)) [
      | inl f ↦ rw (f, entry_or_default) tt
      | inr (v, f) ↦
          rw (f, entry_or_default)
            (All-implies (λ e. (test e ≡ true) × Any (λ y. y ≡ e) v.events)
              (λ e. Any (λ y. y ≡ globalize id e) gs) (filter test v.events)
              (λ e k. let b = k.0 in h id v e f k.1 (ground arith) (ground arith))
              (filter-All test v.events))
    ]

-- In a store whose vectors are sorted by finite times, with at most 2^64 - 1 events, for a cursor
-- that has not gone back: the search for the events of the step does not panic; each that it finds
-- is an event of an aircraft in the store, after the cursor before the step and up to the one
-- after it, and every such event of an aircraft is among them.
pub delta_events-IsDelta :
    (s : TimeSeriesStore) (previous current : F64)
    → IsValid s
    → le previous current ≡ true
    → event_total s (get_aircraft_ids s) ≤ u64_max
    → (gs : List GlobalTimestampedEvent) × (delta_events s (some previous) (some current)
        ≡ value gs)
      × IsDelta s previous current gs
unfolding delta_events delta_between get_global_events_page
delta_events-IsDelta s previous current valid r small =
    let ids = get_aircraft_ids s in
    let (gs, run, sound, covers, few) = collect_events_lem s previous current valid r ids in
    let sorted = sort_by event_before gs in
    let paged : page_slice sorted 0 u64_max ≡ page_of sorted 0 u64_max =
      page_slice_lem sorted 0 u64_max (omega (arith, few, small, length-sort_by event_before gs)) in
    let whole : take u64_max sorted ≡ sorted =
      take_of_length-le u64_max sorted
        (omega (arith, few, small, length-sort_by event_before gs)) in
    let page : get_global_events_page s previous current 0 u64_max
        ≡ value (page_of sorted 0 u64_max) =
      rw (get_global_events_page, run) (ap value paged) in
    let started : take u64_max (drop 0 sorted) ≡ sorted = whole in
    (
      new_events previous gs,
      rw (delta_between, not_lt-of_le previous current r, page, started) refl,
      (
        new_events-All s previous current gs sound,
        HasWanted-All s previous current (new_events previous gs)
            (new_events-Covers s previous current gs covers),
      ),
    )
