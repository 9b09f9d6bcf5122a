-- ===== src/Playback/Calls.antt =====
-- The calls of the playback controller, over stores that may change between them.
use fly_ruler_proto.Base.{ℕ, Option, List, [], ◌∷◌}
use fly_ruler_proto.Float.{F64}
use fly_ruler_proto.Store.{TimeSeriesStore}
use fly_ruler_proto.Playback.{
  Arithmetic, PlaybackStepUnit, PlaybackStepDirection, ReplayConfig, PlaybackSnapshot,
  PlaybackInner, Reply, reply, failed, panicked, live, seek, reset_empty, reset_after_load,
  snapshot, pause, play, set_speed, step,
}

-- A call with its arguments and the readings of the clock.
pub data Call : Type 0 where
  call_snapshot : ℕ × ℕ → Call
  call_live : Call
  call_pause : ℕ × ℕ → Call
  call_seek : F64 → Call
  call_play : Option F64 → ℕ × ℕ → ℕ → ℕ × ℕ → Call
  call_set_speed : F64 → ℕ × ℕ → ℕ → Call
  call_step : PlaybackStepUnit → PlaybackStepDirection → ℕ → ℕ × ℕ → Call
  call_reset_empty : Call
  call_reset_after_load : Call

module _ (ops : Arithmetic) (config : ReplayConfig) where
  unfoldable pub perform :
      TimeSeriesStore → Call → PlaybackInner → Reply (PlaybackInner × PlaybackSnapshot)
  perform store (call_snapshot clock) inner = snapshot ops store clock inner
  perform store call_live inner = live store inner
  perform store (call_pause clock) inner = pause ops store clock inner
  perform store (call_seek t) inner = seek store t inner
  perform store (call_play speed clock now clock') inner =
      play ops config store speed clock now clock' inner
  perform store (call_set_speed speed clock now) inner =
      set_speed ops config store speed clock now inner
  perform store (call_step unit direction count clock) inner =
      step ops store unit direction count clock inner
  perform store call_reset_empty inner = reset_empty inner
  perform store call_reset_after_load inner = reset_after_load store inner

  -- A call that fails leaves the state as it was.
  abbrev pub after : PlaybackInner → Reply (PlaybackInner × PlaybackSnapshot) → PlaybackInner
  after inner (reply (inner', snap)) = inner'
  after inner (failed e) = inner
  after inner panicked = inner

  unfoldable pub run : List (TimeSeriesStore × Call) → PlaybackInner → PlaybackInner
  run [] inner = inner
  run ((store, call) ∷ calls) inner = run calls (after inner (perform store call inner))
