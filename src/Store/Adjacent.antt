-- ===== src/Store/Adjacent.antt =====
-- Frame stepping of `core/src/store.rs`: the timestamps next to a cursor, over all aircraft.
pub mod Nearest
pub mod Global
pub mod Steps
use fly_ruler_proto.Base.{
  ℕ, zero, suc, ◌<◌, Bool, true, false, not, ◌||◌, Option, none, some, List, [], ◌∷◌, eqb,
  if◌then◌else◌, map_option, get_elem?, all,
}
use fly_ruler_proto.Float.{F64, is_finite, le, lt, total_lt}
use fly_ruler_proto.Timeline.{partition_point}
use fly_ruler_proto.Store.{AircraftId, state_time, event_time, AircraftTimeSeries, TimeSeriesStore}

pub data TimelineEntryKind : Type 0 where
  state_entry event_entry : TimelineEntryKind

module _ {A : Type 0} (key : A → F64) where
  -- `partition_point(|s| s.t <= probe)`, then `get`.
  unfoldable pub next_in : F64 → List A → Option F64
  next_in probe xs = map_option key (get_elem? xs (partition_point (λ s. le (key s) probe) xs))

  -- `partition_point(|s| s.t < probe).checked_sub(1)`, then `get`.
  unfoldable pub previous_in : F64 → List A → Option F64
  previous_in probe xs = elim (partition_point (λ s. lt (key s) probe) xs) [
    | zero ↦ none
    | suc i ↦ map_option key (get_elem? xs i)
  ]

  abbrev pub adjacent_in : Bool → F64 → List A → Option F64
  adjacent_in true probe xs = next_in probe xs
  adjacent_in false probe xs = previous_in probe xs

abbrev pub adjacent_in_series : TimelineEntryKind → Bool → F64 → AircraftTimeSeries → Option F64
adjacent_in_series state_entry forward probe v = adjacent_in state_time forward probe v.states
adjacent_in_series event_entry forward probe v = adjacent_in event_time forward probe v.events

-- The `filter_map` over the aircraft.
unfoldable pub candidates :
    TimelineEntryKind → Bool → F64 → List (AircraftId × AircraftTimeSeries) → List F64
candidates kind forward probe [] = []
candidates kind forward probe ((id, v) ∷ m) =
    let rest = candidates kind forward probe m in
    elim (adjacent_in_series kind forward probe v) [ none ↦ rest | some t ↦ t ∷ rest ]

-- The test of the `reduce`.
abbrev pub is_better : Bool → F64 → F64 → Bool
is_better true candidate best = total_lt candidate best
is_better false candidate best = total_lt best candidate

unfoldable pub best_from : Bool → F64 → List F64 → F64
best_from forward best [] = best
best_from forward best (c ∷ cs) =
    best_from forward (if is_better forward c best then c else best) cs

unfoldable pub reduce_best : Bool → List F64 → Option F64
reduce_best forward [] = none
reduce_best forward (c ∷ cs) = some (best_from forward c cs)

-- One round of the loop: the nearest candidate.
abbrev pub nearest :
    TimelineEntryKind → Bool → F64 → List (AircraftId × AircraftTimeSeries) → Option F64
nearest kind forward probe m = reduce_best forward (candidates kind forward probe m)

-- `for _ in 0..count`, with the `break` on an empty round.
unfoldable pub adjacent_rounds :
    TimelineEntryKind
    → Bool
    → List (AircraftId × AircraftTimeSeries)
    → ℕ
    → F64
    → Option F64
    → Option F64
adjacent_rounds kind forward m zero probe result = result
adjacent_rounds kind forward m (suc count) probe result = elim (nearest kind forward probe m) [
  | none ↦ result
  | some c ↦ adjacent_rounds kind forward m count c (some c)
]

unfoldable pub adjacent_global_timestamp :
    TimeSeriesStore → F64 → ℕ → TimelineEntryKind → Bool → Option F64
adjacent_global_timestamp s cursor count kind forward =
    if not (is_finite cursor) || eqb count 0
    then none
    else adjacent_rounds kind forward s.series count cursor none

abbrev pub previous_global_state_timestamp : TimeSeriesStore → F64 → ℕ → Option F64
previous_global_state_timestamp s cursor count =
    adjacent_global_timestamp s cursor count state_entry false

abbrev pub next_global_state_timestamp : TimeSeriesStore → F64 → ℕ → Option F64
next_global_state_timestamp s cursor count =
    adjacent_global_timestamp s cursor count state_entry true

abbrev pub previous_global_event_timestamp : TimeSeriesStore → F64 → ℕ → Option F64
previous_global_event_timestamp s cursor count =
    adjacent_global_timestamp s cursor count event_entry false

abbrev pub next_global_event_timestamp : TimeSeriesStore → F64 → ℕ → Option F64
next_global_event_timestamp s cursor count =
    adjacent_global_timestamp s cursor count event_entry true
