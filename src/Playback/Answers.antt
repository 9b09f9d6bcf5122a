-- ===== src/Playback/Answers.antt =====
-- What the methods that always return give: the mode changes and the snapshot.
use fly_ruler_proto.Base.{ℕ, ◌≡◌, refl, true, Option, none, some, arith, is_none_or, map_option}
use fly_ruler_proto.Float.{F64, is_finite, le_refl}
use fly_ruler_proto.Playback.{
  Arithmetic, ReplayConfig, PlaybackSnapshot, PlaybackInner, Reply, reply, failed, panicked,
  snapshot_from_inner, live, reset_empty, reset_after_load, snapshot,
}
use fly_ruler_proto.Playback.Update.{IsBounds, IsWithin, IsTimeline, update-Updates}
use fly_ruler_proto.Store.Valid.Steps.{IsValid}
use fly_ruler_proto.Store.Summary.{active_time_bounds}
use fly_ruler_proto.Store.Summary.Ends.{all_sample_times, IsRange}
use fly_ruler_proto.Store.Summary.Bounds.{active_time_bounds-IsRange}
use fly_ruler_proto.Store.{TimeSeriesStore}

-- No panic; a state as above, and a snapshot of it with the cursor within its bounds.
abbrev pub Answers : ReplayConfig → Reply (PlaybackInner × PlaybackSnapshot) → Type 0
Answers config (reply (inner, snap)) =
    IsTimeline config inner
    × IsWithin snap.bounds snap.cursor_secs
    × (snap ≡ snapshot_from_inner inner snap.bounds)
Answers config (failed e) = Unit
Answers config panicked = ⊥

pub active_time_bounds-IsBounds :
    (store : TimeSeriesStore) → IsValid store → IsBounds (active_time_bounds store)
active_time_bounds-IsBounds store v =
    range_bounds (active_time_bounds store) (active_time_bounds-IsRange store v)
  where
    range_bounds : (o : Option (F64 × F64)) → IsRange o (all_sample_times store.series) → IsBounds o
    range_bounds none r = tt
    range_bounds (some (a, b)) r = (r.0, r.1, r.2)

module _ (ops : Arithmetic) (config : ReplayConfig) where
  pub snapshot-Answers :
      (store : TimeSeriesStore) (clock : ℕ × ℕ) (inner : PlaybackInner)
      → IsTimeline config inner
      → IsValid store
      → Answers config (snapshot ops store clock inner)
  unfolding snapshot
  snapshot-Answers store clock inner h v =
      let bounds = active_time_bounds store in
      let (inner', done, h', w) =
        update-Updates ops config clock inner bounds h (active_time_bounds-IsBounds store v) in
      rw done (h', w, refl)

  ends-IsWithin :
      (bounds : Option (F64 × F64))
      → IsBounds bounds
      → IsWithin bounds (map_option (λ b. b.1) bounds)
        × IsWithin bounds (map_option (λ b. b.0) bounds)
        × (is_none_or (map_option (λ b. b.1) bounds) is_finite ≡ true)
        × (is_none_or (map_option (λ b. b.0) bounds) is_finite ≡ true)
  ends-IsWithin none r = (refl, refl, refl, refl)
  ends-IsWithin (some (a, b)) r =
      ((b, refl, r.2, le_refl b r.1), (a, refl, le_refl a r.0, r.2), r.1, r.0)

  pub live-Answers :
      (store : TimeSeriesStore) (inner : PlaybackInner)
      → IsTimeline config inner
      → IsValid store
      → Answers config (live store inner)
  unfolding live
  live-Answers store inner h v =
      let w = ends-IsWithin (active_time_bounds store) (active_time_bounds-IsBounds store v) in
      (record { cursor = w.2; speed = h.speed; revision = omega arith; anchored = refl }, w.0, refl)

  pub reset_after_load-Answers :
      (store : TimeSeriesStore) (inner : PlaybackInner)
      → IsTimeline config inner
      → IsValid store
      → Answers config (reset_after_load store inner)
  unfolding reset_after_load
  reset_after_load-Answers store inner h v =
      let w = ends-IsWithin (active_time_bounds store) (active_time_bounds-IsBounds store v) in
      (record { cursor = w.3; speed = h.speed; revision = omega arith; anchored = refl }, w.1, refl)

  pub reset_empty-Answers :
      (inner : PlaybackInner) → IsTimeline config inner → Answers config (reset_empty inner)
  unfolding reset_empty
  reset_empty-Answers inner h = (
    record { cursor = refl; speed = h.speed; revision = omega arith; anchored = refl },
    refl,
    refl,
  )
