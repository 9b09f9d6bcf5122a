-- ===== src/Store/Adjacent/Steps.antt =====
-- Stepping several entries along the timeline.
use fly_ruler_proto.Base.Equality.{string_eq}
use fly_ruler_proto.Base.{
  ℕ, zero, suc, ◌≡◌, refl, subst, inl, inr, Bool, true, Option, none, some, List, [], ◌∷◌, map,
  arith, Option-cases, unwrap_or, is_none_or, map_option, All, All-append, All-Any,
}
use fly_ruler_proto.Base.Dict.{AllValues}
use fly_ruler_proto.Float.{F64, is_finite}
use fly_ruler_proto.Timeline.{Sorted}
use fly_ruler_proto.Store.{AircraftId, state_time, event_time, AircraftTimeSeries, TimeSeriesStore}
use fly_ruler_proto.Store.Valid.Steps.{IsValidSeries, IsValid}
use fly_ruler_proto.Store.Adjacent.{
  TimelineEntryKind, state_entry, event_entry, nearest, adjacent_rounds, adjacent_global_timestamp,
}
use fly_ruler_proto.Store.Adjacent.Nearest.{IsAdjacent}
use fly_ruler_proto.Store.Adjacent.Global.{times_of, all_times, nearest-IsAdjacent}

Sorted-finite :
    {A : Type 0} (key : A → F64) (xs : List A)
    → Sorted key xs
    → All (λ t. is_finite t ≡ true) (map key xs)
Sorted-finite key [] s = tt
Sorted-finite key (x ∷ xs) s = (s.0, Sorted-finite key xs s.2)

all_times-finite :
    (kind : TimelineEntryKind) (m : List (AircraftId × AircraftTimeSeries))
    → AllValues IsValidSeries m
    → All (λ t. is_finite t ≡ true) (all_times kind m)
unfolding all_times times_of
all_times-finite kind [] v = tt
all_times-finite state_entry ((id, w) ∷ m) v =
    All-append (λ t. is_finite t ≡ true) (map state_time w.states) (all_times state_entry m)
      (Sorted-finite state_time w.states v.0.states) (all_times-finite state_entry m v.1)
all_times-finite event_entry ((id, w) ∷ m) v =
    All-append (λ t. is_finite t ≡ true) (map event_time w.events) (all_times event_entry m)
      (Sorted-finite event_time w.events v.0.events) (all_times-finite event_entry m v.1)

-- The result so far is what the rest of the rounds give if they find nothing.
adjacent_rounds-result :
    (kind : TimelineEntryKind) (forward : Bool) (m : List (AircraftId × AircraftTimeSeries))
    (count : ℕ) (probe c : F64)
    → adjacent_rounds kind forward m count probe (some c)
      ≡ some (unwrap_or (adjacent_rounds kind forward m count probe none) c)
unfolding adjacent_rounds
adjacent_rounds-result kind forward m zero probe c = refl
adjacent_rounds-result kind forward m (suc n) probe c =
    elim (Option-cases (nearest kind forward probe m)) [
      | inl e ↦ rw (e, adjacent_rounds)
      | inr (d, e) ↦
          rw (e, adjacent_rounds) (ground (arith, adjacent_rounds-result kind forward m n d d))
    ]

found-finite :
    (kind : TimelineEntryKind) (forward : Bool) (probe c : F64)
    (m : List (AircraftId × AircraftTimeSeries))
    → AllValues IsValidSeries m
    → is_finite probe ≡ true
    → nearest kind forward probe m ≡ some c
    → is_finite c ≡ true
found-finite kind forward probe c m v f e =
    let found =
      subst (IsAdjacent forward probe (all_times kind m)) e
        (nearest-IsAdjacent kind forward probe f m v) in
    All-Any (λ t. is_finite t ≡ true) c (all_times kind m) (all_times-finite kind m v) found.2

rounds-finite :
    (kind : TimelineEntryKind) (forward : Bool) (m : List (AircraftId × AircraftTimeSeries))
    (count : ℕ) (probe : F64) (result : Option F64)
    → AllValues IsValidSeries m
    → is_finite probe ≡ true
    → is_none_or result is_finite ≡ true
    → is_none_or (adjacent_rounds kind forward m count probe result) is_finite ≡ true
unfolding adjacent_rounds
rounds-finite kind forward m zero probe result v f r = r
rounds-finite kind forward m (suc n) probe result v f r =
    elim (Option-cases (nearest kind forward probe m)) [
      | inl e ↦ rw (e, adjacent_rounds) r
      | inr (c, e) ↦
          let fc = found-finite kind forward probe c m v f e in
          rw (e, adjacent_rounds) (rounds-finite kind forward m n c (some c) v fc fc)
    ]

pub adjacent_global_timestamp-finite :
    (s : TimeSeriesStore) (cursor : F64) (count : ℕ) (kind : TimelineEntryKind) (forward : Bool)
    → IsValid s
    → is_finite cursor ≡ true
    → is_finite (unwrap_or (adjacent_global_timestamp s cursor count kind forward) cursor) ≡ true
unfolding adjacent_global_timestamp
adjacent_global_timestamp-finite s cursor count kind forward h f =
    ground (arith, rounds-finite kind forward s.series count cursor none h f refl)

-- In a store whose vectors are sorted by finite times, for a finite cursor, a step of count + 1
-- entries is a step of one and then, from the timestamp that it found, a step of count, which
-- falls back on that timestamp if nothing is past it; if the first step finds nothing, nor do they
-- together.
pub adjacent_global_timestamp-suc :
    (s : TimeSeriesStore) (cursor : F64) (count : ℕ) (kind : TimelineEntryKind) (forward : Bool)
    → IsValid s
    → is_finite cursor ≡ true
    → adjacent_global_timestamp s cursor (suc count) kind forward
      ≡ map_option
          (λ c. unwrap_or (adjacent_global_timestamp s c count kind forward) c)
          (adjacent_global_timestamp s cursor 1 kind forward)
unfolding adjacent_global_timestamp adjacent_rounds
adjacent_global_timestamp-suc s cursor count kind forward h f =
    elim (Option-cases (nearest kind forward cursor s.series)) [
      | inl e ↦ ground arith
      | inr (c, e) ↦
          let fc = found-finite kind forward cursor c s.series h f e in
          ground (arith, fc, adjacent_rounds-result kind forward s.series count c c)
    ]
