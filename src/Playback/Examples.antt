-- ===== src/Playback/Examples.antt =====
-- The theorems on `core/src/playback.rs` at concrete histories.
use fly_ruler_proto.Base.Dict.{insert, lookup}
use fly_ruler_proto.Timeline.{append_sorted}
use fly_ruler_proto.Base.Equality.{string_eq}
use fly_ruler_proto.Base.{ℕ, ◌%◌, ◌≡◌, refl, true, none, some, List, [], ◌∷◌, arith}
use fly_ruler_proto.Float.{
  F64, plus, infinity_bits, is_finite, le, le_trans, fmax, fmax_lem, not_nan-of_finite,
  not_nan-of_le, is_nan, le_refl, le-of_lt, total_lt, fmin,
}
use fly_ruler_proto.Pb.{AircraftState}
use fly_ruler_proto.Store.{AircraftId, TimeSeriesStore, new_store}
use fly_ruler_proto.Store.Append.{append_state}
use fly_ruler_proto.Store.Summary.{
  active_time_bounds, time_bounds_from, aircraft_time_range, min_by_total, max_by_total, min_from,
  max_from,
}
use fly_ruler_proto.Store.Valid.Steps.{IsValid, append_state-IsValid}
use fly_ruler_proto.Playback.{
  Arithmetic, sample_unit, next_entry, ReplayConfig, new_inner, PlaybackInner, PlaybackSnapshot,
  replay_playing, snapshot, seek, reply, resolve_aircraft_with,
}
use fly_ruler_proto.Playback.Update.{IsSpeed, IsTimeline}
use fly_ruler_proto.Playback.Calls.{Call, call_seek, call_play, call_step, perform, run}
use fly_ruler_proto.Playback.Answers.{Answers}
use fly_ruler_proto.Playback.History.{run-Answers}
use fly_ruler_proto.Playback.Shown.{
  IsMonotone, snapshot-advances, state_at, seek-resolve_aircraft_with,
}

-- 0.1, 1.0, 1.5, 2.0 and 10.0.
abbrev tenth : F64
tenth = plus 0x3fb9_9999_9999_999a

abbrev one : F64
one = plus 0x3ff0_0000_0000_0000

abbrev one_half : F64
one_half = plus 0x3ff8_0000_0000_0000

abbrev two : F64
two = plus 0x4000_0000_0000_0000

abbrev ten : F64
ten = plus 0x4024_0000_0000_0000

abbrev default_replay : ReplayConfig
default_replay = record { default_speed = one; min_speed = tenth; max_speed = ten }

-- Operations that are monotone: a sum and a product of two values is the larger one.
abbrev coarse : Arithmetic
coarse = record { add = fmax; mul = fmax; as_secs_f64 = λ n. plus (n % infinity_bits) }

coarse_elapsed :
    (n : ℕ)
    → (is_finite (plus (n % infinity_bits)) ≡ true)
      × (le (plus 0) (plus (n % infinity_bits)) ≡ true)
unfolding is_finite le
coarse_elapsed n = ground arith

coarse_add : (x y : F64) → is_finite x ≡ true → le (plus 0) y ≡ true → le x (fmax x y) ≡ true
unfolding fmax
coarse_add x y f p =
    ground (arith, not_nan-of_finite x f, not_nan-of_le (plus 0) y p, le_refl x f, le-of_lt x y)

coarse-IsMonotone : IsMonotone coarse
coarse-IsMonotone = record {
  elapsed = coarse_elapsed;
  mul_nonneg = λ x y f g p q. le_trans (plus 0) x (fmax x y) p (fmax_lem x y f g).1;
  add_nonneg = coarse_add;
}

abbrev blank_state : AircraftState
blank_state = record {
  position = none;
  velocity = none;
  attitude = none;
  angular_velocity = none;
  derived = none;
  control_surfaces = none;
  linear_acceleration_body = none;
  propulsors = [];
}

abbrev the_id : AircraftId
the_id = b'a' ∷ []

-- States at 2.0 and 1.0.
abbrev flown : TimeSeriesStore
flown = append_state (append_state new_store the_id two blank_state) the_id one blank_state

flown-IsValid : IsValid flown
flown-IsValid =
    append_state-IsValid _ the_id one blank_state
      (append_state-IsValid new_store the_id two blank_state tt)

default-IsSpeed : IsSpeed default_replay one
unfolding is_finite le
default-IsSpeed = (refl, refl, refl)

abbrev calls : List (TimeSeriesStore × Call)
calls =
    (new_store, call_seek one)
    ∷ (flown, call_seek one_half)
    ∷ (flown, call_play (some two) (10, 11) 12 (13, 14))
    ∷ []

run-Answers_example : Answers default_replay (
    perform coarse default_replay flown
      (call_step sample_unit next_entry 1 (20, 21))
      (run coarse default_replay calls (new_inner default_replay)))
run-Answers_example =
    run-Answers coarse default_replay calls flown (call_step sample_unit next_entry 1 (20, 21))
      default-IsSpeed (tt, (flown-IsValid, (flown-IsValid, tt))) flown-IsValid

flown-bounds : active_time_bounds flown ≡ some (one, two)
unfolding append_state append_sorted insert lookup is_finite is_nan le total_lt fmin fmax
    active_time_bounds time_bounds_from aircraft_time_range min_by_total max_by_total min_from
    max_from
flown-bounds = refl

one-le-one_half : le one one_half ≡ true
unfolding le
one-le-one_half = refl

one_half-le-two : le one_half two ≡ true
unfolding le
one_half-le-two = refl

tenth_nonneg : le (plus 0) tenth ≡ true
unfolding le
tenth_nonneg = refl

seek-resolve_aircraft_with_example :
    (inner' : PlaybackInner) × (snap : PlaybackSnapshot) × (seek flown one_half
        (new_inner default_replay)
      ≡ reply (inner', snap))
    × (snap.cursor_secs ≡ some one_half)
    × (resolve_aircraft_with flown snap the_id ≡ state_at flown the_id one_half)
seek-resolve_aircraft_with_example =
    seek-resolve_aircraft_with flown (new_inner default_replay) the_id one_half one two
      flown-IsValid flown-bounds one-le-one_half one_half-le-two

-- A timeline that plays at 1.5 since 5 nanoseconds after the start of the clock.
abbrev playing : PlaybackInner
playing = record {
  mode = replay_playing;
  cursor_secs = some one_half;
  speed = one;
  anchor = some 5;
  revision = 3;
}

playing-IsTimeline : IsTimeline default_replay playing
unfolding is_finite
playing-IsTimeline = record {
  cursor = refl;
  speed = default-IsSpeed;
  revision = omega arith;
  anchored = refl;
}

snapshot-advances_example :
    (inner' : PlaybackInner) × (snap : PlaybackSnapshot) × (c' : F64) × (snapshot coarse flown
        (9, 9)
        playing
      ≡ reply (inner', snap))
    × (snap.cursor_secs ≡ some c')
    × (le one_half c' ≡ true)
    × (inner'.speed ≡ playing.speed)
snapshot-advances_example =
    snapshot-advances coarse coarse-IsMonotone default_replay flown (9, 9) playing one two one_half
      playing-IsTimeline tenth_nonneg refl flown-bounds refl (one-le-one_half, one_half-le-two)
