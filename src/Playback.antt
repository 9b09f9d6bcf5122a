-- ===== src/Playback.antt =====
-- `core/src/playback.rs`: the global timeline, live or replayed.
pub mod Update
pub mod Calls
pub mod Answers
pub mod Bounded
pub mod Moves
pub mod History
pub mod Shown
mod Examples
use fly_ruler_proto.Base.Equality.{string_eq}
use fly_ruler_proto.Base.{
  ℕ, ◌+◌, ◌-◌, ◌%◌, ◌^◌, Bool, true, false, ◌&&◌, Option, none, some, leb, if◌then◌else◌, unwrap_or,
  is_some_and, map_option, and_then,
}
use fly_ruler_proto.Float.{F64, plus, infinity_bits, is_finite, le, lt, fmax}
use fly_ruler_proto.Store.{AircraftId, TimestampedState, TimeSeriesStore}
use fly_ruler_proto.Store.Query.{get_latest, get_state_at_or_before, is_spawned_at}
use fly_ruler_proto.Store.Adjacent.{
  previous_global_state_timestamp, next_global_state_timestamp, previous_global_event_timestamp,
  next_global_event_timestamp,
}
use fly_ruler_proto.Store.Summary.{active_time_bounds}

-- What the controller asks of floating-point arithmetic: the sum and the product of two doubles, and
-- a duration of so many nanoseconds in seconds.
pub record Arithmetic : Type 0 where
  pub add : F64 → F64 → F64
  pub mul : F64 → F64 → F64
  pub as_secs_f64 : ℕ → F64

pub data PlaybackMode : Type 0 where
  live_mode replay_paused replay_playing : PlaybackMode

pub data PlaybackStepUnit : Type 0 where
  sample_unit event_unit : PlaybackStepUnit

pub data PlaybackStepDirection : Type 0 where
  previous_entry next_entry : PlaybackStepDirection

pub record ReplayConfig : Type 0 where
  pub default_speed : F64
  pub min_speed : F64
  pub max_speed : F64

pub record PlaybackSnapshot : Type 0 where
  pub mode : PlaybackMode
  pub cursor_secs : Option F64
  pub speed : F64
  pub bounds : Option (F64 × F64)
  pub revision : ℕ

pub record ResolvedState : Type 0 where
  pub sample : TimestampedState
  pub spawned : Bool

pub data PlaybackError : Type 0 where
  empty_store invalid_timestamp invalid_step_count : PlaybackError
  invalid_speed : F64 → F64 → PlaybackError

-- An `Instant` is a value of the monotonic clock in nanoseconds.
pub record PlaybackInner : Type 0 where
  pub mode : PlaybackMode
  pub cursor_secs : Option F64
  pub speed : F64
  pub anchor : Option ℕ
  pub revision : ℕ

-- A method returns, fails, or panics in `f64::clamp`.
pub data Reply (A : Type 0) : Type 0 where
  reply : A → Reply A
  failed : PlaybackError → Reply A
  panicked : Reply A

infixl 5 ◌>>=◌ ◌>>◌
abbrev pub ◌>>=◌ : {A B : Type 0} → Reply A → (A → Reply B) → Reply B
reply a >>= f = f a
failed e >>= f = failed e
panicked >>= f = panicked

abbrev pub ◌>>◌ : {B : Type 0} → Reply (Unit {0}) → Reply B → Reply B
m >> k = m >>= λ _. k

abbrev pub check : Bool → PlaybackError → Reply (Unit {0})
check true e = reply tt
check false e = failed e

-- `bounds.ok_or(PlaybackError::EmptyStore)`.
abbrev pub known_bounds : Option (F64 × F64) → Reply (F64 × F64)
known_bounds none = failed empty_store
known_bounds (some b) = reply b

-- `x.clamp(lo, hi)`, which panics unless `lo <= hi`.
unfoldable pub clamp : F64 → F64 → F64 → Reply F64
clamp x lo hi =
    if le lo hi then reply (if lt x lo then lo else if lt hi x then hi else x) else panicked

abbrev pub wrapping_next : ℕ → ℕ
wrapping_next n = (n + 1) % 2 ^ 64

-- `PlaybackController::new`.
abbrev pub new_inner : ReplayConfig → PlaybackInner
new_inner config = record {
  mode = live_mode;
  cursor_secs = none;
  speed = config.default_speed;
  anchor = none;
  revision = 0;
}

unfoldable pub validate_speed : ReplayConfig → F64 → Reply (Unit {0})
validate_speed config speed =
    check (is_finite speed && (le config.min_speed speed && le speed config.max_speed))
      (invalid_speed config.min_speed config.max_speed)

abbrev pub snapshot_from_inner : PlaybackInner → Option (F64 × F64) → PlaybackSnapshot
snapshot_from_inner inner bounds = record {
  mode = inner.mode;
  cursor_secs = inner.cursor_secs;
  speed = inner.speed;
  bounds = bounds;
  revision = inner.revision;
}

abbrev pub without_data : PlaybackMode → PlaybackMode
without_data live_mode = live_mode
without_data replay_paused = replay_paused
without_data replay_playing = replay_paused

-- The new state and the snapshot of it.
abbrev pub finish : Option (F64 × F64) → PlaybackInner → Reply (PlaybackInner × PlaybackSnapshot)
finish bounds inner = reply (inner, snapshot_from_inner inner bounds)

unfoldable pub live : TimeSeriesStore → PlaybackInner → Reply (PlaybackInner × PlaybackSnapshot)
live store inner =
    let bounds = active_time_bounds store in
    finish bounds (record inner {
      mode = live_mode;
      cursor_secs = map_option (λ b. b.1) bounds;
      anchor = none;
      revision = wrapping_next inner.revision;
    })

unfoldable pub seek :
    TimeSeriesStore → F64 → PlaybackInner → Reply (PlaybackInner × PlaybackSnapshot)
seek store timestamp inner = do
  check (is_finite timestamp) invalid_timestamp
  bounds ← known_bounds (active_time_bounds store)
  c ← clamp timestamp bounds.0 bounds.1
  finish (some bounds) (record inner {
    mode = replay_paused;
    cursor_secs = some c;
    anchor = none;
    revision = wrapping_next inner.revision;
  })

abbrev pub validate_optional_speed : ReplayConfig → Option F64 → Reply (Unit {0})
validate_optional_speed config none = reply tt
validate_optional_speed config (some speed) = validate_speed config speed

abbrev pub reanchor : PlaybackMode → ℕ → Option ℕ → Option ℕ
reanchor live_mode now anchor = anchor
reanchor replay_paused now anchor = anchor
reanchor replay_playing now anchor = some now

abbrev pub step_target :
    TimeSeriesStore → PlaybackStepUnit → PlaybackStepDirection → F64 → ℕ → Option F64
step_target store sample_unit previous_entry cursor count =
    previous_global_state_timestamp store cursor count
step_target store sample_unit next_entry cursor count =
    next_global_state_timestamp store cursor count
step_target store event_unit previous_entry cursor count =
    previous_global_event_timestamp store cursor count
step_target store event_unit next_entry cursor count =
    next_global_event_timestamp store cursor count

unfoldable pub reset_empty : PlaybackInner → Reply (PlaybackInner × PlaybackSnapshot)
reset_empty inner = finish none (record inner {
  mode = replay_paused;
  cursor_secs = none;
  anchor = none;
  revision = wrapping_next inner.revision;
})

unfoldable pub reset_after_load :
    TimeSeriesStore → PlaybackInner → Reply (PlaybackInner × PlaybackSnapshot)
reset_after_load store inner =
    let bounds = active_time_bounds store in
    finish bounds (record inner {
      mode = replay_paused;
      cursor_secs = map_option (λ b. b.0) bounds;
      anchor = none;
      revision = wrapping_next inner.revision;
    })

module _ (ops : Arithmetic) where
  -- The end of the slice since the anchor, from the cursor.
  unfoldable pub next_cursor : ℕ → F64 → PlaybackInner → F64
  next_cursor elapsed_at start inner =
      let elapsed : F64 = elim inner.anchor [
        | none ↦ plus 0
        | some anchor ↦ ops.as_secs_f64 (elapsed_at - anchor)
      ] in
      ops.add (unwrap_or inner.cursor_secs start) (ops.mul elapsed inner.speed)

  -- The `match inner.mode` of `update_effective_cursor`. The clock is read at `elapsed_at` for the
  -- elapsed time and at `anchor_at` for the new anchor.
  unfoldable pub update_mode :
      PlaybackMode → ℕ → ℕ → PlaybackInner → F64 → F64 → Reply PlaybackInner
  unfolding next_cursor
  update_mode live_mode elapsed_at anchor_at inner start end =
      reply (record inner { cursor_secs = some end; anchor = none })
  update_mode replay_paused elapsed_at anchor_at inner start end = do
    c ← clamp (unwrap_or inner.cursor_secs start) start end
    reply (record inner { cursor_secs = some c; anchor = none })
  update_mode replay_playing elapsed_at anchor_at inner start end =
      let next = next_cursor elapsed_at start inner in
      if le end next
      then reply (record inner {
        cursor_secs = some end;
        mode = replay_paused;
        anchor = none;
        revision = wrapping_next inner.revision;
      })
      else reply (record inner { cursor_secs = some (fmax next start); anchor = some anchor_at })

  unfoldable pub update_effective_cursor :
      ℕ × ℕ → PlaybackInner → Option (F64 × F64) → Reply PlaybackInner
  update_effective_cursor clock inner none =
      reply (record inner { cursor_secs = none; anchor = none; mode = without_data inner.mode })
  update_effective_cursor (elapsed_at, anchor_at) inner (some (start, end)) =
      update_mode inner.mode elapsed_at anchor_at inner start end

  unfoldable pub snapshot :
      TimeSeriesStore → ℕ × ℕ → PlaybackInner → Reply (PlaybackInner × PlaybackSnapshot)
  snapshot store clock inner = do
    let bounds = active_time_bounds store
    inner' ← update_effective_cursor clock inner bounds
    finish bounds inner'

  unfoldable pub pause :
      TimeSeriesStore → ℕ × ℕ → PlaybackInner → Reply (PlaybackInner × PlaybackSnapshot)
  pause store clock inner = do
    bounds ← known_bounds (active_time_bounds store)
    inner' ← update_effective_cursor clock inner (some bounds)
    finish (some bounds) (record inner' {
      mode = replay_paused;
      cursor_secs = some (unwrap_or inner'.cursor_secs bounds.1);
      anchor = none;
      revision = wrapping_next inner'.revision;
    })

  -- The clock is read for the first update, for the anchor, and for the second update.
  unfoldable pub play :
      ReplayConfig
      → TimeSeriesStore
      → Option F64
      → ℕ × ℕ
      → ℕ
      → ℕ × ℕ
      → PlaybackInner
      → Reply (PlaybackInner × PlaybackSnapshot)
  play config store speed clock now clock' inner = do
    validate_optional_speed config speed
    bounds ← known_bounds (active_time_bounds store)
    inner' ← update_effective_cursor clock inner (some bounds)
    c ← clamp (unwrap_or inner'.cursor_secs bounds.0) bounds.0 bounds.1
    let started = record inner' {
      mode = replay_playing;
      cursor_secs = some c;
      speed = unwrap_or speed inner'.speed;
      anchor = some now;
      revision = wrapping_next inner'.revision;
    }
    inner'' ← update_effective_cursor clock' started (some bounds)
    finish (some bounds) inner''

  unfoldable pub set_speed :
      ReplayConfig
      → TimeSeriesStore
      → F64
      → ℕ × ℕ
      → ℕ
      → PlaybackInner
      → Reply (PlaybackInner × PlaybackSnapshot)
  set_speed config store speed clock now inner = do
    validate_speed config speed
    let bounds = active_time_bounds store
    inner' ← update_effective_cursor clock inner bounds
    finish bounds (record inner' {
      speed = speed;
      anchor = reanchor inner'.mode now inner'.anchor;
      revision = wrapping_next inner'.revision;
    })

  -- Both reads of the store, for the bounds and for the target, are taken to find the same store.
  unfoldable pub step :
      TimeSeriesStore
      → PlaybackStepUnit
      → PlaybackStepDirection
      → ℕ
      → ℕ × ℕ
      → PlaybackInner
      → Reply (PlaybackInner × PlaybackSnapshot)
  step store unit direction count clock inner = do
    check (leb 1 count && leb count 100) invalid_step_count
    bounds ← known_bounds (active_time_bounds store)
    inner' ← update_effective_cursor clock inner (some bounds)
    let cursor = unwrap_or inner'.cursor_secs bounds.1
    c ← clamp (unwrap_or (step_target store unit direction cursor count) cursor) bounds.0 bounds.1
    finish (some bounds) (record inner' {
      mode = replay_paused;
      cursor_secs = some c;
      anchor = none;
      revision = wrapping_next inner'.revision;
    })

-- The state that a mode shows at a cursor, and whether the aircraft is spawned there.
abbrev pub resolve_sample :
    TimeSeriesStore → PlaybackMode → Option F64 → AircraftId → Option TimestampedState
resolve_sample store live_mode cursor id = get_latest store id
resolve_sample store replay_paused cursor id =
    and_then cursor (λ c. get_state_at_or_before store id c)
resolve_sample store replay_playing cursor id =
    and_then cursor (λ c. get_state_at_or_before store id c)

abbrev pub resolve_spawned : TimeSeriesStore → PlaybackMode → Option F64 → AircraftId → Bool
resolve_spawned store live_mode cursor id = is_spawned_at store id (plus infinity_bits)
resolve_spawned store replay_paused cursor id = is_some_and cursor (λ c. is_spawned_at store id c)
resolve_spawned store replay_playing cursor id = is_some_and cursor (λ c. is_spawned_at store id c)

unfoldable pub resolve_aircraft_with :
    TimeSeriesStore → PlaybackSnapshot → AircraftId → Option ResolvedState
resolve_aircraft_with store playback id =
    map_option
      (λ sample. record {
        sample = sample;
        spawned = resolve_spawned store playback.mode playback.cursor_secs id;
      })
      (resolve_sample store playback.mode playback.cursor_secs id)
