-- ===== src/Playback/Moves.antt =====
-- The methods that need data, on any store: no panic, and a cursor within the bounds.
use fly_ruler_proto.Playback.{
  ◌>>=◌, Arithmetic, PlaybackMode, live_mode, replay_paused, replay_playing, PlaybackStepUnit,
  PlaybackStepDirection, ReplayConfig, PlaybackError, invalid_speed, PlaybackInner, reply, failed,
  known_bounds, clamp, wrapping_next, validate_speed, finish, seek, validate_optional_speed,
  reanchor, step_target, update_effective_cursor, pause, play, set_speed, step,
}
use fly_ruler_proto.Base.Equality.{string_eq}
use fly_ruler_proto.Base.{
  ℕ, ◌≡◌, refl, ◌⊎◌, inl, inr, true, ◌&&◌, Option, none, some, arith, leb, Bool-cases, unwrap_or,
}
use fly_ruler_proto.Float.{F64, is_finite, le}
use fly_ruler_proto.Playback.Update.{
  IsBounds, is_playing, is_some, validate_speed-IsSpeed, IsTimeline, update-Updates,
}
use fly_ruler_proto.Playback.Answers.{Answers, active_time_bounds-IsBounds}
use fly_ruler_proto.Playback.Bounded.{seek_paused, pause_with, step_with, play_with}
use fly_ruler_proto.Store.Valid.Steps.{IsValid}
use fly_ruler_proto.Store.{TimeSeriesStore}
use fly_ruler_proto.Store.Summary.{active_time_bounds}

module _ (ops : Arithmetic) (config : ReplayConfig) where
  pub seek-Answers :
      (store : TimeSeriesStore) (t : F64) (inner : PlaybackInner)
      → IsTimeline config inner
      → IsValid store
      → Answers config (seek store t inner)
  unfolding seek
  seek-Answers store t inner h v = elim (Bool-cases (is_finite t)) [
    | inr e ↦ rw e tt
    | inl e ↦ rw e (seek_known (active_time_bounds store) (active_time_bounds-IsBounds store v) e)
  ]
    where
      seek_known :
          (bounds : Option (F64 × F64))
          → IsBounds bounds
          → is_finite t ≡ true
          → Answers config (
              known_bounds bounds >>= λ b. clamp t b.0 b.1 >>= λ c. finish (some b) (record inner {
                mode = replay_paused;
                cursor_secs = some c;
                anchor = none;
                revision = wrapping_next inner.revision;
              }))
      seek_known none r e = tt
      seek_known (some (a, b)) r e = seek_paused ops config a b r t inner e h

  pub pause-Answers :
      (store : TimeSeriesStore) (clock : ℕ × ℕ) (inner : PlaybackInner)
      → IsTimeline config inner
      → IsValid store
      → Answers config (pause ops store clock inner)
  unfolding pause
  pause-Answers store clock inner h v =
      pause_known (active_time_bounds store) (active_time_bounds-IsBounds store v)
    where
      pause_known :
          (bounds : Option (F64 × F64))
          → IsBounds bounds
          → Answers config (
              known_bounds bounds >>= λ b.
              update_effective_cursor ops clock inner (some b) >>= λ inner'.
              finish (some b) (record inner' {
                mode = replay_paused;
                cursor_secs = some (unwrap_or inner'.cursor_secs b.1);
                anchor = none;
                revision = wrapping_next inner'.revision;
              }))
      pause_known none r = tt
      pause_known (some (a, b)) r = pause_with ops config a b r clock inner h

  pub step-Answers :
      (store : TimeSeriesStore) (unit : PlaybackStepUnit) (direction : PlaybackStepDirection)
      (count : ℕ) (clock : ℕ × ℕ) (inner : PlaybackInner)
      → IsTimeline config inner
      → IsValid store
      → Answers config (step ops store unit direction count clock inner)
  unfolding step
  step-Answers store unit direction count clock inner h v =
      elim (Bool-cases (leb 1 count && leb count 100)) [
        | inr e ↦ rw e tt
        | inl e ↦ rw e (step_known (active_time_bounds store) (active_time_bounds-IsBounds store v))
      ]
    where
      step_known :
          (bounds : Option (F64 × F64))
          → IsBounds bounds
          → Answers config (
              known_bounds bounds >>= λ b.
              update_effective_cursor ops clock inner (some b) >>= λ inner'.
              clamp
                (unwrap_or
                  (step_target store unit direction (unwrap_or inner'.cursor_secs b.1) count)
                  (unwrap_or inner'.cursor_secs b.1))
                b.0
                b.1
              >>= λ c. finish (some b) (record inner' {
                mode = replay_paused;
                cursor_secs = some c;
                anchor = none;
                revision = wrapping_next inner'.revision;
              }))
      step_known none r = tt
      step_known (some (a, b)) r =
          step_with ops config a b r store unit direction count clock inner v h

  validate_optional_speed-cases :
      (speed : Option F64)
      → (validate_optional_speed config speed ≡ reply tt)
        ⊎ ((e : PlaybackError) × (validate_optional_speed config speed ≡ failed e))
  unfolding validate_speed
  validate_optional_speed-cases none = inl refl
  validate_optional_speed-cases (some s) =
      elim (Bool-cases (is_finite s && (le config.min_speed s && le s config.max_speed))) [
        | inl e ↦ inl (rw e)
        | inr e ↦ inr (invalid_speed config.min_speed config.max_speed, rw e)
      ]

  pub play-Answers :
      (store : TimeSeriesStore) (speed : Option F64) (clock : ℕ × ℕ) (now : ℕ) (clock' : ℕ × ℕ)
      (inner : PlaybackInner)
      → IsTimeline config inner
      → IsValid store
      → Answers config (play ops config store speed clock now clock' inner)
  unfolding play
  play-Answers store speed clock now clock' inner h v = elim (validate_optional_speed-cases speed) [
    | inr (e, bad) ↦ rw bad tt
    | inl good ↦
        rw good (play_known good (active_time_bounds store) (active_time_bounds-IsBounds store v))
  ]
    where
      play_known :
          validate_optional_speed config speed ≡ reply tt
          → (bounds : Option (F64 × F64)) → IsBounds bounds
          → Answers config (
              known_bounds bounds >>= λ b.
              update_effective_cursor ops clock inner (some b) >>= λ inner'.
              clamp (unwrap_or inner'.cursor_secs b.0) b.0 b.1 >>= λ c.
              update_effective_cursor ops clock'
                (record inner' {
                  mode = replay_playing;
                  cursor_secs = some c;
                  speed = unwrap_or speed inner'.speed;
                  anchor = some now;
                  revision = wrapping_next inner'.revision;
                })
                (some b)
              >>= λ inner''. finish (some b) inner'')
      play_known good none r = tt
      play_known good (some (a, b)) r =
          play_with ops config a b r speed clock now clock' inner good h

  reanchor-anchored :
      (m : PlaybackMode) (now : ℕ) (anchor : Option ℕ)
      → is_some anchor ≡ is_playing m
      → is_some (reanchor m now anchor) ≡ is_playing m
  reanchor-anchored live_mode now anchor h = h
  reanchor-anchored replay_paused now anchor h = h
  reanchor-anchored replay_playing now anchor h = refl

  pub set_speed-Answers :
      (store : TimeSeriesStore) (speed : F64) (clock : ℕ × ℕ) (now : ℕ) (inner : PlaybackInner)
      → IsTimeline config inner
      → IsValid store
      → Answers config (set_speed ops config store speed clock now inner)
  unfolding set_speed
  set_speed-Answers store speed clock now inner h v =
      elim (validate_optional_speed-cases (some speed)) [
        | inr (e, bad) ↦ rw bad tt
        | inl good ↦
            let bounds = active_time_bounds store in
            let (inner', done, h', w) =
              update-Updates ops config clock inner bounds h
                (active_time_bounds-IsBounds store v) in
            rw (good, done)
              (
                record {
                  cursor = h'.cursor;
                  speed = validate_speed-IsSpeed config speed good;
                  revision = omega arith;
                  anchored = reanchor-anchored inner'.mode now inner'.anchor h'.anchored;
                },
                w,
                refl,
              )
      ]
