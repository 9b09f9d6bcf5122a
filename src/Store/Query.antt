-- ===== src/Store/Query.antt =====
-- The per-aircraft queries of `core/src/store.rs`.
use fly_ruler_proto.Base.Equality.{string_eq}
use fly_ruler_proto.Base.{
  ℕ, ◌+◌, ◌-◌, ◌^◌, min, Bool, true, false, Option, none, some, List, [], ◌∷◌, ltb, eqb,
  if◌then◌else◌, unwrap_or, is_none_or, map_option, and_then, length, take, drop, get_last?,
}
use fly_ruler_proto.Base.Dict.{lookup}
use fly_ruler_proto.Float.{F64, plus, minus, infinity_bits, is_finite, le}
use fly_ruler_proto.Pb.{TelemetryStreamSchema}
use fly_ruler_proto.Timeline.{
  Outcome, value, map_outcome, partition_point, range_slice, range_filter, last_at_or_before,
}
use fly_ruler_proto.Store.{
  AircraftId, Event, spawned, despawned, custom, TimestampedState, TimestampedEvent,
  TimestampedTelemetryFrame, state_time, event_time, telemetry_time, AircraftTimeSeries, StorePage,
  TimeSeriesStore,
}
use fly_ruler_proto.Store.Append.{schemas_of}

abbrev pub u64_max : ℕ
u64_max = 2 ^ 64 - 1

-- `usize::saturating_add` on a 64-bit target.
abbrev pub saturating_add : ℕ → ℕ → ℕ
saturating_add a b = min (a + b) u64_max

-- The slice `items[start..end]` of `page_slice` is in range, whatever the arguments.
unfoldable pub page_slice {ℓ} : {T : Type ℓ} → List T → ℕ → ℕ → StorePage T
page_slice items offset limit =
    let total = length items in
    let start = min offset total in
    let end = min (saturating_add start limit) total in
    record {
      items = take (end - start) (drop start items);
      total = total;
      offset = offset;
      limit = limit;
    }

-- Nanoseconds since the last receipt, by the monotonic clock.
unfoldable pub live_state_age : TimeSeriesStore → AircraftId → ℕ → Option ℕ
live_state_age s id now = map_option (λ at. now - at) (lookup id s.live_state_receipts)

unfoldable pub live_state_is_stale : TimeSeriesStore → AircraftId → ℕ → ℕ → Bool
unfolding live_state_age
live_state_is_stale s id timeout now = is_none_or (live_state_age s id now) (λ age. ltb timeout age)

unfoldable pub get_latest : TimeSeriesStore → AircraftId → Option TimestampedState
get_latest s id = and_then (lookup id s.series) (λ v. get_last? v.states)

unfoldable pub get_state_at_or_before : TimeSeriesStore → AircraftId → F64 → Option TimestampedState
get_state_at_or_before s id t =
    if is_finite t
    then and_then (lookup id s.series) (λ v. last_at_or_before state_time t v.states)
    else none

-- What an event says of the lifecycle.
abbrev pub lifecycle : Event → Option Bool
lifecycle (spawned i) = some true
lifecycle (despawned i) = some false
lifecycle (custom c) = none

-- `events[..end].iter().rev().find_map(…)`: the last lifecycle event decides.
unfoldable pub last_lifecycle : List TimestampedEvent → Option Bool
last_lifecycle [] = none
last_lifecycle (e ∷ es) = elim (last_lifecycle es) [ some b ↦ some b | none ↦ lifecycle e.event ]

abbrev pub is_positive_infinity : F64 → Bool
is_positive_infinity (plus m) = eqb m infinity_bits
is_positive_infinity (minus m) = false

abbrev pub events_seen : F64 → List TimestampedEvent → ℕ
events_seen t events =
    if is_positive_infinity t
    then length events
    else if is_finite t
    then partition_point (λ e. le (event_time e) t) events
    else 0

unfoldable pub is_spawned_at : TimeSeriesStore → AircraftId → F64 → Bool
is_spawned_at s id t =
    unwrap_or
      (and_then (lookup id s.series) (λ v. last_lifecycle (take (events_seen t v.events) v.events)))
      false

unfoldable pub get_states_range :
    TimeSeriesStore → AircraftId → F64 → F64 → Option (List TimestampedState)
get_states_range s id start end =
    map_option (λ v. range_filter state_time start end v.states) (lookup id s.series)

unfoldable pub get_telemetry_schemas :
    TimeSeriesStore → AircraftId → Option (List TelemetryStreamSchema)
get_telemetry_schemas s id = map_option schemas_of (lookup id s.series)

-- `data.get(id).map(…)` of a closure that may panic.
abbrev pub map_series {ℓ} :
    {R : Type ℓ}
    → TimeSeriesStore
    → AircraftId
    → (AircraftTimeSeries → Outcome R)
    → Outcome (Option R)
map_series s id f = elim (lookup id s.series) [
  | none ↦ value none
  | some v ↦ map_outcome some (f v)
]

-- The visitor is applied to the slice.
unfoldable pub visit_telemetry_range {ℓ} :
    {R : Type ℓ}
    → TimeSeriesStore
    → AircraftId
    → F64
    → F64
    → (List TimestampedTelemetryFrame → R)
    → Outcome (Option R)
visit_telemetry_range s id start end visitor =
    map_series s id (λ v. map_outcome visitor (range_slice telemetry_time start end v.telemetry))

unfoldable pub visit_states_range {ℓ} :
    {R : Type ℓ}
    → TimeSeriesStore
    → AircraftId
    → F64
    → F64
    → (List TimestampedState → R)
    → Outcome (Option R)
visit_states_range s id start end visitor =
    map_series s id (λ v. map_outcome visitor (range_slice state_time start end v.states))

unfoldable pub get_states_page :
    TimeSeriesStore → AircraftId → F64 → F64 → ℕ → ℕ → Outcome (Option (StorePage TimestampedState))
get_states_page s id start end offset limit = map_series s id (λ v.
    map_outcome (λ xs. page_slice xs offset limit) (range_slice state_time start end v.states))

unfoldable pub get_events_range :
    TimeSeriesStore → AircraftId → F64 → F64 → Option (List TimestampedEvent)
get_events_range s id start end =
    map_option (λ v. range_filter event_time start end v.events) (lookup id s.series)

unfoldable pub get_events_page :
    TimeSeriesStore → AircraftId → F64 → F64 → ℕ → ℕ → Outcome (Option (StorePage TimestampedEvent))
get_events_page s id start end offset limit = map_series s id (λ v.
    map_outcome (λ xs. page_slice xs offset limit) (range_slice event_time start end v.events))
