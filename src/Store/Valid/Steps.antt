-- ===== src/Store/Valid/Steps.antt =====
-- The invariant that every vector is sorted, and that each handler of a message keeps it.
use fly_ruler_proto.Store.Telemetry
use fly_ruler_proto.Base.Equality.{string_eq}
use fly_ruler_proto.Base.{◌≡◌, inl, inr, true, some, arith, Bool-cases, Option-cases}
use fly_ruler_proto.Base.Dict.{lookup, AllValues-lookup, AllValues-insert, AllValues}
use fly_ruler_proto.Float.{F64, is_finite}
use fly_ruler_proto.Pb.{AircraftState, TelemetryFrame}
use fly_ruler_proto.Timeline.{Sorted}
use fly_ruler_proto.Timeline.Order.{append_sorted-Sorted}
use fly_ruler_proto.Store.{
  AircraftId, Event, spawned, despawned, custom, state_time, event_time, telemetry_time,
  AircraftTimeSeries, empty_series, TimeSeriesStore, ok, entry_or_default, set_series,
}
use fly_ruler_proto.Store.Append.{
  push_state, append_state, configure, push_event, append_event, schemas_of, push_telemetry,
  append_telemetry,
}

pub record IsValidSeries (v : AircraftTimeSeries) : Type 0 where
  pub states : Sorted state_time v.states
  pub events : Sorted event_time v.events
  pub telemetry : Sorted telemetry_time v.telemetry

abbrev pub IsValid : TimeSeriesStore → Type 0
IsValid s = AllValues IsValidSeries s.series

pub lookup-IsValid :
    (s : TimeSeriesStore) (id : AircraftId) (v : AircraftTimeSeries)
    → IsValid s
    → lookup id s.series ≡ some v
    → IsValidSeries v
lookup-IsValid s id v h e = AllValues-lookup IsValidSeries id v s.series h e

empty_series-IsValid : IsValidSeries empty_series
empty_series-IsValid = record { states = tt; events = tt; telemetry = tt }

pub entry-IsValid :
    (s : TimeSeriesStore) (id : AircraftId) → IsValid s → IsValidSeries (entry_or_default s id)
entry-IsValid s id h = elim (Option-cases (lookup id s.series)) [
  | inl e ↦ rw e empty_series-IsValid
  | inr (v, e) ↦ rw e (lookup-IsValid s id v h e)
]

set_series-IsValid :
    (s : TimeSeriesStore) (id : AircraftId) (v : AircraftTimeSeries)
    → IsValid s
    → IsValidSeries v
    → IsValid (set_series s id v)
set_series-IsValid s id v h hv = AllValues-insert IsValidSeries id v s.series h hv

push_state-IsValid :
    (t : F64) (state : AircraftState) (v : AircraftTimeSeries)
    → is_finite t ≡ true
    → IsValidSeries v
    → IsValidSeries (push_state t state v)
push_state-IsValid t state v f h = record {
  states = append_sorted-Sorted state_time _ v.states f h.states;
  events = h.events;
  telemetry = h.telemetry;
}

configure-IsValid :
    (event : Event) (v : AircraftTimeSeries) → IsValidSeries v → IsValidSeries (configure event v)
configure-IsValid (spawned i) v h = record {
  states = h.states;
  events = h.events;
  telemetry = h.telemetry;
}
configure-IsValid (despawned i) v h = h
configure-IsValid (custom c) v h = h

push_event-IsValid :
    (t : F64) (event : Event) (v : AircraftTimeSeries)
    → is_finite t ≡ true
    → IsValidSeries v
    → IsValidSeries (push_event t event v)
push_event-IsValid t event v f h = record {
  states = h.states;
  events = append_sorted-Sorted event_time _ v.events f h.events;
  telemetry = h.telemetry;
}

push_telemetry-IsValid :
    (t : F64) (frame : TelemetryFrame) (v : AircraftTimeSeries)
    → is_finite t ≡ true
    → IsValidSeries v
    → IsValidSeries (push_telemetry t frame v)
push_telemetry-IsValid t frame v f h = record {
  states = h.states;
  events = h.events;
  telemetry = append_sorted-Sorted telemetry_time _ v.telemetry f h.telemetry;
}

pub append_state-IsValid :
    (s : TimeSeriesStore) (id : AircraftId) (t : F64) (state : AircraftState)
    → IsValid s
    → IsValid (append_state s id t state)
unfolding append_state
append_state-IsValid s id t state h = elim (Bool-cases (is_finite t)) [
  | inl f ↦ rw f (
      set_series-IsValid s id _ h
        (push_state-IsValid t state (entry_or_default s id) f (entry-IsValid s id h)))
  | inr n ↦ rw n h
]

pub append_event-IsValid :
    (s : TimeSeriesStore) (id : AircraftId) (t : F64) (event : Event)
    → IsValid s
    → IsValid (append_event s id t event)
unfolding append_event
append_event-IsValid s id t event h = elim (Bool-cases (is_finite t)) [
  | inl f ↦ rw f (
      set_series-IsValid s id _ h (
        push_event-IsValid t event (configure event (entry_or_default s id)) f
          (configure-IsValid event _ (entry-IsValid s id h))))
  | inr n ↦ rw n h
]

-- What a successful `append_telemetry` has found and done.
pub append_telemetry-ok :
    (s s' : TimeSeriesStore) (id : AircraftId) (t : F64) (frame : TelemetryFrame)
    → append_telemetry s id t frame ≡ ok s'
    → (v : AircraftTimeSeries) × (lookup id s.series ≡ some v)
      × (is_finite t ≡ true)
      × (Telemetry.validate_telemetry_frame (schemas_of v) frame ≡ ok tt)
      × (s' ≡ set_series s id (push_telemetry t frame v))
unfolding append_telemetry
append_telemetry-ok s s' id t frame e = ground arith

pub append_telemetry-IsValid :
    (s s' : TimeSeriesStore) (id : AircraftId) (t : F64) (frame : TelemetryFrame)
    → IsValid s
    → append_telemetry s id t frame ≡ ok s'
    → IsValid s'
append_telemetry-IsValid s s' id t frame h e =
    let (v, found, f, fits, done) = append_telemetry-ok s s' id t frame e in
    rw done (
      set_series-IsValid s id _ h
        (push_telemetry-IsValid t frame v f (lookup-IsValid s id v h found)))
