-- ===== src/Playback/Shown.antt =====
-- What the controller of `core/src/playback.rs` shows: the sample at the cursor, and how time moves on.
use fly_ruler_proto.Base.{
  ◌≡◌, refl, subst, true, false, Option, none, some, arith, unwrap_or, map_option, get_last?, ℕ,
  ◌-◌, is_none_or, Bool-cases, inl, inr,
}
use fly_ruler_proto.Float.{
  F64, le, not_lt-of_le, finite_between, is_finite, plus, fmax, le_refl, not_nan-of_le, le_trans,
}
use fly_ruler_proto.Playback.{
  replay_paused, PlaybackSnapshot, ResolvedState, PlaybackInner, reply, clamp, wrapping_next, seek,
  resolve_aircraft_with, snapshot_from_inner, Arithmetic, ReplayConfig, snapshot, next_cursor,
  update_effective_cursor, update_mode, replay_playing,
}
use fly_ruler_proto.Playback.Update.{IsBounds, IsTimeline}
use fly_ruler_proto.Playback.Answers.{active_time_bounds-IsBounds}
use fly_ruler_proto.Store.{AircraftId, TimeSeriesStore}
use fly_ruler_proto.Store.Summary.{active_time_bounds}
use fly_ruler_proto.Store.Query.{last_lifecycle}
use fly_ruler_proto.Store.Reads.{states_up_to, get_state_at_or_before_lem}
use fly_ruler_proto.Store.Lifecycle.{events_up_to, is_spawned_at-last_lifecycle}
use fly_ruler_proto.Store.Valid.Steps.{IsValid}

clamp-inside : (t a b : F64) → le a b ≡ true → le a t ≡ true → le t b ≡ true → clamp t a b ≡ reply t
unfolding clamp
clamp-inside t a b r low high = ground (arith, not_lt-of_le a t low, not_lt-of_le t b high)

-- The aircraft as it was at a time: its last state at or before it, and its last lifecycle event.
pub state_at : TimeSeriesStore → AircraftId → F64 → Option ResolvedState
state_at store id t =
    map_option
      (λ sample. record {
        sample = sample;
        spawned = unwrap_or (last_lifecycle (events_up_to store id t)) false;
      })
      (get_last? (states_up_to store id t))

-- In a store whose vectors are sorted by finite times and that has time bounds, a seek to a time
-- within them returns a snapshot whose cursor is exactly that time, and an aircraft resolved
-- against this snapshot is its last state at or before the time, spawned as its last spawn or
-- despawn event at or before the time says (not spawned if there is none); it is absent if it has
-- no such state.
pub seek-resolve_aircraft_with :
    (store : TimeSeriesStore) (inner : PlaybackInner) (id : AircraftId) (t a b : F64)
    → IsValid store
    → active_time_bounds store ≡ some (a, b)
    → le a t ≡ true
    → le t b ≡ true
    → (inner' : PlaybackInner) × (snap : PlaybackSnapshot) × (seek store t inner
        ≡ reply (inner', snap))
      × (snap.cursor_secs ≡ some t)
      × (resolve_aircraft_with store snap id ≡ state_at store id t)
unfolding seek resolve_aircraft_with state_at
seek-resolve_aircraft_with store inner id t a b v known low high =
    let r : IsBounds (some (a, b)) = subst IsBounds known (active_time_bounds-IsBounds store v) in
    let f = finite_between a t b r.0 r.1 low high in
    let inner' : PlaybackInner = record inner {
      mode = replay_paused;
      cursor_secs = some t;
      anchor = none;
      revision = wrapping_next inner.revision;
    } in
    (
      inner',
      snapshot_from_inner inner' (some (a, b)),
      rw (f, known, clamp-inside t a b r.2 low high) refl,
      refl,
      rw (get_state_at_or_before_lem store id t v f, is_spawned_at-last_lifecycle store id t v f)
          refl,
    )

zero_finite : is_finite (plus 0) ≡ true
unfolding is_finite
zero_finite = refl

-- Laws of the floating-point operations on the values that the controller gives them.
pub record IsMonotone (ops : Arithmetic) : Type 0 where
  pub elapsed :
      (n : ℕ) → (is_finite (ops.as_secs_f64 n) ≡ true) × (le (plus 0) (ops.as_secs_f64 n) ≡ true)
  pub mul_nonneg :
      (x y : F64)
      → is_finite x ≡ true
      → is_finite y ≡ true
      → le (plus 0) x ≡ true
      → le (plus 0) y ≡ true
      → le (plus 0) (ops.mul x y) ≡ true
  pub add_nonneg :
      (x y : F64) → is_finite x ≡ true → le (plus 0) y ≡ true → le x (ops.add x y) ≡ true

module _ (ops : Arithmetic) (laws : IsMonotone ops) (config : ReplayConfig) where
  slice_nonneg :
      (at : ℕ) (anchor : Option ℕ) (speed : F64)
      → is_finite speed ≡ true
      → le (plus 0) speed ≡ true
      → le
          (plus 0)
          (ops.mul (elim anchor [ none ↦ plus 0 | some n ↦ ops.as_secs_f64 (at - n) ]) speed)
        ≡ true
  slice_nonneg at none speed f p =
      laws.mul_nonneg (plus 0) speed zero_finite f (le_refl (plus 0) zero_finite) p
  slice_nonneg at (some n) speed f p =
      let (g, q) = laws.elapsed (at - n) in laws.mul_nonneg (ops.as_secs_f64 (at - n)) speed g f q p

  next_cursor-grows :
      (at : ℕ) (inner : PlaybackInner) (a c : F64)
      → inner.cursor_secs ≡ some c
      → is_finite c ≡ true
      → is_finite inner.speed ≡ true
      → le (plus 0) inner.speed ≡ true
      → le c (next_cursor ops at a inner) ≡ true
  unfolding next_cursor
  next_cursor-grows at inner a c e f g p =
      rw e (laws.add_nonneg c _ f (slice_nonneg at inner.anchor inner.speed g p))

  fmax-above : (next a c : F64) → le a c ≡ true → le c next ≡ true → le c (fmax next a) ≡ true
  unfolding fmax
  fmax-above next a c low up = ground (
    arith,
    not_nan-of_le c next up,
    not_nan-of_le a c low,
    le_trans a c next low up,
    not_lt-of_le a next,
  )

  -- While the timeline plays with its cursor within the bounds of the store, for a state with a
  -- finite cursor and a speed within limits that are not negative, and for arithmetic in which a
  -- duration is finite and not negative, a product of finite non-negative values is not negative,
  -- and adding a non-negative value does not make a finite value smaller: a snapshot succeeds, its
  -- cursor is at or after the old one, and the speed is unchanged.
  pub snapshot-advances :
      (store : TimeSeriesStore) (clock : ℕ × ℕ) (inner : PlaybackInner) (a b c : F64)
      → IsTimeline config inner
      → le (plus 0) config.min_speed ≡ true
      → inner.mode ≡ replay_playing
      → active_time_bounds store ≡ some (a, b)
      → inner.cursor_secs ≡ some c
      → (le a c ≡ true) × (le c b ≡ true)
      → (inner' : PlaybackInner) × (snap : PlaybackSnapshot) × (c' : F64) × (snapshot ops store
            clock inner
          ≡ reply (inner', snap))
        × (snap.cursor_secs ≡ some c')
        × (le c c' ≡ true)
        × (inner'.speed ≡ inner.speed)
  unfolding snapshot update_effective_cursor update_mode
  snapshot-advances store (at, anchor_at) inner a b c h positive playing known here (low, high) =
      let next = next_cursor ops at a inner in
      let finite_c : is_finite c ≡ true =
        subst (λ o. is_none_or o is_finite ≡ true) here h.cursor in
      let speed_nonneg = le_trans (plus 0) config.min_speed inner.speed positive h.speed.1 in
      let grows = next_cursor-grows at inner a c here finite_c h.speed.0 speed_nonneg in
      elim (Bool-cases (le b next)) [
        | inl over ↦
            let ended : PlaybackInner = record inner {
              cursor_secs = some b;
              mode = replay_paused;
              anchor = none;
              revision = wrapping_next inner.revision;
            } in
            (
              ended,
              snapshot_from_inner ended (some (a, b)),
              b,
              rw (known, playing, over) refl,
              refl,
              high,
              refl,
            )
        | inr going ↦
            let moved : PlaybackInner = record inner {
              cursor_secs = some (fmax next a);
              anchor = some anchor_at;
            } in
            (
              moved,
              snapshot_from_inner moved (some (a, b)),
              fmax next a,
              rw (known, playing, going) refl,
              refl,
              fmax-above next a c low grows,
              refl,
            )
      ]
