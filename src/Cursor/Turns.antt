-- ===== src/Cursor/Turns.antt =====
-- The turns that a subscriber of the cursor stream gets from tick to tick.
use fly_ruler_proto.Base.{[], ◌∷◌, List, ℕ, ◌≡◌, Option, some, ◌⊎◌, subst, inl, none, inr, refl}
use fly_ruler_proto.Cursor.Queued.{subscriber_turn-IsQueued}
use fly_ruler_proto.Pb.{Message}
use fly_ruler_proto.Timeline.{Outcome, value, panic}
use fly_ruler_proto.Float.{F64}
use fly_ruler_proto.Cursor.Chain.{IsQueued}
use fly_ruler_proto.Playback.{PlaybackSnapshot}
use fly_ruler_proto.Store.{TimeSeriesStore}
use fly_ruler_proto.Cursor.Send.{subscriber_turn, SubscriberTurn}
use fly_ruler_proto.Cursor.Subscriber.{
  Crates, CursorStreamConfig, Readings, SubscriberState, new_subscriber,
}

-- What the publisher finds at a tick: the store and the playback, its count of frames, and what the
-- session of the subscriber has acknowledged and asked for.
pub record Tick : Type 0 where
  pub store : TimeSeriesStore
  pub snapshot : PlaybackSnapshot
  pub frame_sequence : ℕ
  pub ack : ℕ
  pub requested_hz : F64
  pub readings : Readings

module _ (x : Crates) (config : CursorStreamConfig) (stale_timeout : ℕ) (epoch : List ℕ) where
  abbrev pub turn_at : Tick → SubscriberState → Outcome SubscriberTurn
  turn_at t s =
      subscriber_turn x config stale_timeout t.store epoch t.snapshot t.frame_sequence t.ack
        t.requested_hz t.readings s

  -- The state after the ticks; none if the subscriber was removed.
  unfoldable pub run_turns : List Tick → SubscriberState → Outcome (Option SubscriberState)
  run_turns [] s = value (some s)
  run_turns (t ∷ ticks) s = elim (turn_at t s) [
    | panic ↦ panic
    | value (none, messages) ↦ value none
    | value (some s', messages) ↦ run_turns ticks s'
  ]

  turn-cases :
      (o : Outcome SubscriberTurn)
      → (o ≡ panic)
        ⊎ ((messages : List Message) × (o ≡ value (none, messages)))
        ⊎ ((s : SubscriberState) × (messages : List Message) × (o ≡ value (some s, messages)))
  turn-cases panic = inl refl
  turn-cases (value (none, messages)) = inr (inl (messages, refl))
  turn-cases (value (some s, messages)) = inr (inr (s, messages, refl))

  run_kept :
      (ticks : List Tick) (s s' : SubscriberState)
      → IsQueued config.event_retry_limit s
      → run_turns ticks s ≡ value (some s')
      → IsQueued config.event_retry_limit s'
  unfolding run_turns
  run_kept [] s s' h e =
      let same : value (some s) ≡ value (some s') = e in
      subst (IsQueued config.event_retry_limit) {x = s} {y = s'} (cc same) h
  run_kept (t ∷ ticks) s s' h e = elim (turn-cases (turn_at t s)) [
    | inl f ↦ let g : panic ≡ value (some s') = rw (run_turns, f) at e in absurd (cc g)
    | inr (inl (messages, f)) ↦
        let g : value none ≡ value (some s') = rw (run_turns, f) at e in absurd (cc g)
    | inr (inr (turned, messages, f)) ↦
        run_kept ticks turned s'
          (subscriber_turn-IsQueued config.event_retry_limit x config stale_timeout t.store epoch
            t.snapshot t.frame_sequence t.ack t.requested_hz t.readings s turned messages refl h f)
          (rw (run_turns, f) at e)
  ]

  -- After any ticks that leave a new subscriber in place, whatever the store, the playback, the
  -- acknowledgements and the clock are: the pages that it has still to acknowledge are of one
  -- snapshot and numbered in turn, modulo 2^64 and never with 0, up to the last number given out,
  -- only the last of them is the final one, only the first was sent, and it was not sent more
  -- often than the limit.
  pub run_turns-IsQueued :
      (ticks : List Tick) (s : SubscriberState)
      → run_turns ticks new_subscriber ≡ value (some s)
      → IsQueued config.event_retry_limit s
  run_turns-IsQueued ticks s e =
      run_kept ticks new_subscriber s (record { chain = tt; tried = tt; numbered = tt }) e
