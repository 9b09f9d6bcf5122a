-- ===== src/Playback/History.antt =====
-- Any history of calls of the playback controller, over stores that change between them.
use fly_ruler_proto.Base.Equality.{string_eq}
use fly_ruler_proto.Base.{refl, List, [], ◌∷◌, arith}
use fly_ruler_proto.Playback.{
  Arithmetic, ReplayConfig, PlaybackSnapshot, PlaybackInner, Reply, reply, failed, panicked,
  new_inner,
}
use fly_ruler_proto.Playback.Update.{IsSpeed, IsTimeline}
use fly_ruler_proto.Playback.Answers.{
  Answers, snapshot-Answers, live-Answers, reset_after_load-Answers, reset_empty-Answers,
}
use fly_ruler_proto.Store.Valid.Steps.{IsValid}
use fly_ruler_proto.Store.{TimeSeriesStore}
use fly_ruler_proto.Playback.Calls.{
  Call, call_snapshot, call_live, call_pause, call_seek, call_play, call_set_speed, call_step,
  call_reset_empty, call_reset_after_load, perform, after, run,
}
use fly_ruler_proto.Playback.Moves.{
  seek-Answers, pause-Answers, step-Answers, play-Answers, set_speed-Answers,
}

-- The stores that the calls see are valid.
abbrev pub IsValidHistory : List (TimeSeriesStore × Call) → Type 0
IsValidHistory [] = Unit
IsValidHistory ((store, call) ∷ calls) = IsValid store × IsValidHistory calls

module _ (ops : Arithmetic) (config : ReplayConfig) where
  pub perform-Answers :
      (store : TimeSeriesStore) (call : Call) (inner : PlaybackInner)
      → IsTimeline config inner
      → IsValid store
      → Answers config (perform ops config store call inner)
  unfolding perform
  perform-Answers store (call_snapshot clock) inner h v =
      snapshot-Answers ops config store clock inner h v
  perform-Answers store call_live inner h v = live-Answers ops config store inner h v
  perform-Answers store (call_pause clock) inner h v =
      pause-Answers ops config store clock inner h v
  perform-Answers store (call_seek t) inner h v = seek-Answers ops config store t inner h v
  perform-Answers store (call_play speed clock now clock') inner h v =
      play-Answers ops config store speed clock now clock' inner h v
  perform-Answers store (call_set_speed speed clock now) inner h v =
      set_speed-Answers ops config store speed clock now inner h v
  perform-Answers store (call_step unit direction count clock) inner h v =
      step-Answers ops config store unit direction count clock inner h v
  perform-Answers store call_reset_empty inner h v = reset_empty-Answers ops config inner h
  perform-Answers store call_reset_after_load inner h v =
      reset_after_load-Answers ops config store inner h v

  after-IsTimeline :
      (inner : PlaybackInner) (r : Reply (PlaybackInner × PlaybackSnapshot))
      → IsTimeline config inner
      → Answers config r
      → IsTimeline config (after ops config inner r)
  after-IsTimeline inner (reply (inner', snap)) h a = a.0
  after-IsTimeline inner (failed e) h a = h
  after-IsTimeline inner panicked h a = h

  run-IsTimeline :
      (calls : List (TimeSeriesStore × Call)) (inner : PlaybackInner)
      → IsValidHistory calls
      → IsTimeline config inner
      → IsTimeline config (run ops config calls inner)
  unfolding run
  run-IsTimeline [] inner v h = h
  run-IsTimeline ((store, call) ∷ calls) inner (v, vs) h = run-IsTimeline calls _ vs (
      after-IsTimeline inner (perform ops config store call inner) h
        (perform-Answers store call inner h v))

  -- A new controller is a timeline.
  new_inner-IsTimeline : IsSpeed config config.default_speed → IsTimeline config (new_inner config)
  new_inner-IsTimeline s = record {
    cursor = refl;
    speed = s;
    revision = omega arith;
    anchored = refl;
  }

  -- After any sequence of calls of a new controller whose default speed is finite and within the
  -- configured limits, over stores whose vectors are sorted by finite times, one more call on such
  -- a store does not panic; it fails with an error or returns. What returns is a state with a
  -- finite cursor or none, a speed within the limits, a 64-bit revision, and an anchor exactly
  -- while it plays, together with the snapshot of that state, whose cursor is within its bounds,
  -- and absent if there are none.
  pub run-Answers :
      (calls : List (TimeSeriesStore × Call)) (store : TimeSeriesStore) (call : Call)
      → IsSpeed config config.default_speed
      → IsValidHistory calls
      → IsValid store
      → Answers config (perform ops config store call (run ops config calls (new_inner config)))
  run-Answers calls store call s vs v =
      perform-Answers store call _ (run-IsTimeline calls _ vs (new_inner-IsTimeline s)) v
