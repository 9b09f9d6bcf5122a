-- ===== src/Playback/Bounded.antt =====
-- The methods that need data, for given bounds: the cursor that they leave is within them.
use fly_ruler_proto.Playback.{
  ◌>>=◌, Arithmetic, replay_paused, replay_playing, PlaybackStepUnit, sample_unit, event_unit,
  PlaybackStepDirection, previous_entry, next_entry, ReplayConfig, PlaybackInner, reply, clamp,
  wrapping_next, finish, validate_optional_speed, step_target, update_effective_cursor,
}
use fly_ruler_proto.Base.{ℕ, ◌≡◌, refl, subst, true, false, Option, none, some, arith, unwrap_or}
use fly_ruler_proto.Float.{F64, is_finite, le, finite_between}
use fly_ruler_proto.Playback.Update.{
  IsBounds, IsWithin, IsSpeed, validate_speed-IsSpeed, IsTimeline, clamp-within, update-Updates,
}
use fly_ruler_proto.Store.Valid.Steps.{IsValid}
use fly_ruler_proto.Store.Adjacent.{state_entry, event_entry}
use fly_ruler_proto.Store.Adjacent.Steps.{adjacent_global_timestamp-finite}
use fly_ruler_proto.Store.{TimeSeriesStore}
use fly_ruler_proto.Playback.Answers.{Answers}

module _ (ops : Arithmetic) (config : ReplayConfig) where
  -- The methods that need data, for given bounds.
  module _ (a b : F64) (r : IsBounds (some (a, b))) where
    paused_at :
        (inner : PlaybackInner) (c : F64)
        → IsTimeline config inner
        → le a c ≡ true
        → le c b ≡ true
        → IsTimeline config (record inner {
          mode = replay_paused;
          cursor_secs = some c;
          anchor = none;
          revision = wrapping_next inner.revision;
        })
    paused_at inner c h low high = record {
      cursor = finite_between a c b r.0 r.1 low high;
      speed = h.speed;
      revision = omega arith;
      anchored = refl;
    }

    pub seek_paused :
        (t : F64) (inner : PlaybackInner)
        → is_finite t ≡ true
        → IsTimeline config inner
        → Answers config (
            clamp t a b >>= λ c. finish (some (a, b)) (record inner {
              mode = replay_paused;
              cursor_secs = some c;
              anchor = none;
              revision = wrapping_next inner.revision;
            }))
    seek_paused t inner f h =
        let (c, done, low, high) = clamp-within t a b f r.0 r.1 r.2 in
        rw done (paused_at inner c h low high, (c, refl, low, high), refl)

    pub within_unwrap :
        (o : Option F64) (d : F64)
        → IsWithin (some (a, b)) o
        → (le a (unwrap_or o d) ≡ true)
          × (le (unwrap_or o d) b ≡ true)
          × (is_finite (unwrap_or o d) ≡ true)
    within_unwrap none d w = cc w.1
    within_unwrap (some x) d (c, e, low, high) =
        let same : c ≡ x = cc in
        let low' = subst (λ y. le a y ≡ true) same low in
        let high' = subst (λ y. le y b ≡ true) same high in
        (low', high', finite_between a x b r.0 r.1 low' high')

    pub pause_with :
        (clock : ℕ × ℕ) (inner : PlaybackInner)
        → IsTimeline config inner
        → Answers config (
            update_effective_cursor ops clock inner (some (a, b)) >>= λ inner'.
            finish (some (a, b)) (record inner' {
              mode = replay_paused;
              cursor_secs = some (unwrap_or inner'.cursor_secs b);
              anchor = none;
              revision = wrapping_next inner'.revision;
            }))
    pause_with clock inner h =
        let (inner', done, h', w) = update-Updates ops config clock inner (some (a, b)) h r in
        let (low, high, fin) = within_unwrap inner'.cursor_secs b w in
        rw done (paused_at inner' _ h' low high, (_, refl, low, high), refl)

    target_finite :
        (store : TimeSeriesStore) (unit : PlaybackStepUnit) (direction : PlaybackStepDirection)
        (count : ℕ) (cursor : F64)
        → IsValid store
        → is_finite cursor ≡ true
        → is_finite (unwrap_or (step_target store unit direction cursor count) cursor) ≡ true
    target_finite store sample_unit previous_entry count cursor v f =
        adjacent_global_timestamp-finite store cursor count state_entry false v f
    target_finite store sample_unit next_entry count cursor v f =
        adjacent_global_timestamp-finite store cursor count state_entry true v f
    target_finite store event_unit previous_entry count cursor v f =
        adjacent_global_timestamp-finite store cursor count event_entry false v f
    target_finite store event_unit next_entry count cursor v f =
        adjacent_global_timestamp-finite store cursor count event_entry true v f

    pub step_with :
        (store : TimeSeriesStore) (unit : PlaybackStepUnit) (direction : PlaybackStepDirection)
        (count : ℕ) (clock : ℕ × ℕ) (inner : PlaybackInner)
        → IsValid store
        → IsTimeline config inner
        → Answers config (
            update_effective_cursor ops clock inner (some (a, b)) >>= λ inner'.
            clamp
              (unwrap_or
                (step_target store unit direction (unwrap_or inner'.cursor_secs b) count)
                (unwrap_or inner'.cursor_secs b))
              a
              b
            >>= λ c. finish (some (a, b)) (record inner' {
              mode = replay_paused;
              cursor_secs = some c;
              anchor = none;
              revision = wrapping_next inner'.revision;
            }))
    step_with store unit direction count clock inner v h =
        let (inner', done, h', w) = update-Updates ops config clock inner (some (a, b)) h r in
        let (low, high, fin) = within_unwrap inner'.cursor_secs b w in
        rw done (seek_paused _ inner' (target_finite store unit direction count _ v fin) h')

    chosen-IsSpeed :
        (speed : Option F64) (old : F64)
        → validate_optional_speed config speed ≡ reply tt
        → IsSpeed config old
        → IsSpeed config (unwrap_or speed old)
    chosen-IsSpeed none old valid h = h
    chosen-IsSpeed (some s) old valid h = validate_speed-IsSpeed config s valid

    pub play_with :
        (speed : Option F64) (clock : ℕ × ℕ) (now : ℕ) (clock' : ℕ × ℕ) (inner : PlaybackInner)
        → validate_optional_speed config speed ≡ reply tt
        → IsTimeline config inner
        → Answers config (
            update_effective_cursor ops clock inner (some (a, b)) >>= λ inner'.
            clamp (unwrap_or inner'.cursor_secs a) a b >>= λ c.
            update_effective_cursor ops clock'
              (record inner' {
                mode = replay_playing;
                cursor_secs = some c;
                speed = unwrap_or speed inner'.speed;
                anchor = some now;
                revision = wrapping_next inner'.revision;
              })
              (some (a, b))
            >>= λ inner''. finish (some (a, b)) inner'')
    play_with speed clock now clock' inner valid h =
        let (inner', done, h', w) = update-Updates ops config clock inner (some (a, b)) h r in
        let (low, high, fin) = within_unwrap inner'.cursor_secs a w in
        let (c, done', low', high') =
          clamp-within (unwrap_or inner'.cursor_secs a) a b fin r.0 r.1 r.2 in
        let started = record inner' {
          mode = replay_playing;
          cursor_secs = some c;
          speed = unwrap_or speed inner'.speed;
          anchor = some now;
          revision = wrapping_next inner'.revision;
        } in
        let started-IsTimeline : IsTimeline config started = record {
          cursor = finite_between a c b r.0 r.1 low' high';
          speed = chosen-IsSpeed speed inner'.speed valid h'.speed;
          revision = omega arith;
          anchored = refl;
        } in
        let (inner'', done'', h'', w'') =
          update-Updates ops config clock' started (some (a, b)) started-IsTimeline r in
        rw (done, done', done'') (h'', w'', refl)
