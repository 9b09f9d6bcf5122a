-- ===== src/Store/Global.antt =====
-- The global event page of `core/src/store.rs`.
pub mod Collected
use fly_ruler_proto.Base.Equality.{string_eq}
use fly_ruler_proto.Base.{
  ℕ, Bool, true, not, ◌&&◌, none, some, List, [], ◌∷◌, ◌++◌, map, if◌then◌else◌,
}
use fly_ruler_proto.Base.Dict.{lookup}
use fly_ruler_proto.Float.{F64, total_lt}
use fly_ruler_proto.Timeline.{Outcome, value, panic, map_outcome, range_slice}
use fly_ruler_proto.Store.{
  AircraftId, TimestampedEvent, GlobalTimestampedEvent, event_time, StorePage, TimeSeriesStore,
}
use fly_ruler_proto.Store.Query.{page_slice}
use fly_ruler_proto.Store.Summary.{str_lt, sort_by, get_aircraft_ids}

abbrev pub globalize : AircraftId → TimestampedEvent → GlobalTimestampedEvent
globalize id e = record { aircraft_id = id; timestamp_secs = e.timestamp_secs; event = e.event }

-- `left.t.total_cmp(&right.t).then_with(|| left.id.cmp(&right.id))` is less.
unfoldable pub event_before : GlobalTimestampedEvent → GlobalTimestampedEvent → Bool
event_before l r =
    if total_lt l.timestamp_secs r.timestamp_secs
    then true
    else not (total_lt r.timestamp_secs l.timestamp_secs) && str_lt l.aircraft_id r.aircraft_id

-- The loop over the sorted ids; a slice that panics ends it.
unfoldable pub collect_events :
    TimeSeriesStore → F64 → F64 → List AircraftId → Outcome (List GlobalTimestampedEvent)
collect_events s start end [] = value []
collect_events s start end (id ∷ ids) =
    let rest = collect_events s start end ids in
    elim (lookup id s.series) [
      | none ↦ rest
      | some v ↦ elim (range_slice event_time start end v.events) [
        | panic ↦ panic
        | value es ↦ map_outcome (λ others. map (globalize id) es ++ others) rest
      ]
    ]

unfoldable pub get_global_events_page :
    TimeSeriesStore → F64 → F64 → ℕ → ℕ → Outcome (StorePage GlobalTimestampedEvent)
get_global_events_page s start end offset limit =
    map_outcome (λ events. page_slice (sort_by event_before events) offset limit)
      (collect_events s start end (get_aircraft_ids s))
