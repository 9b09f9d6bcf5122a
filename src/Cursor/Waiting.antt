-- ===== src/Cursor/Waiting.antt =====
-- What a turn does for a subscriber of the cursor stream that has not acknowledged its page.
use fly_ruler_proto.Base.{
  Bool, ◌∙◌, [], ◌∷◌, List, ℕ, ◌≡◌, ◌<◌, ◌+◌, Bool-cases, ◌≤◌, leb, none, false, is_some_and, ltb,
  arith, eqb, ◌-◌, ◌||◌, some, inl, refl, inr, true, ◌++◌, ap,
}
use fly_ruler_proto.Cursor.Events.{assemble_cursor_frame}
use fly_ruler_proto.Float.{fmin}
use fly_ruler_proto.Timeline.{value}
use fly_ruler_proto.Cursor.Subscriber.{Crates, CursorStreamConfig, SubscriberState, PendingEvents}
use fly_ruler_proto.Cursor.Publish.{acknowledge, refill, is_idle}
use fly_ruler_proto.Cursor.Send.{subscriber_turn, send_front, send_frame, frame_after, watermark}
use fly_ruler_proto.Cursor.Turns.{Tick, turn_at}
use fly_ruler_proto.Cursor.Paged.{CursorResult-cases}
use fly_ruler_proto.Cursor.{Message, encode_cursor_chunks, pos}

module _ (x : Crates) (config : CursorStreamConfig) (stale_timeout : ℕ) (epoch : List ℕ) where
  waiting_kept :
      (ack : ℕ) (s : SubscriberState) (p : PendingEvents) (ps : List PendingEvents)
      → s.pending ≡ p ∷ ps
      → ack < p.sequence
      → acknowledge ack s ≡ s
  unfolding acknowledge
  waiting_kept ack s p ps e h =
      let unseen : leb p.sequence ack ≡ false = ground arith in
      rw (e, unseen, acknowledge) (ap (λ q. record s { pending = q }) e)

  refill_kept :
      (t : Tick) (s : SubscriberState) (p : PendingEvents) (ps : List PendingEvents)
      → s.pending ≡ p ∷ ps
      → refill x t.store epoch t.snapshot t.readings s ≡ value s
  unfolding refill
  refill_kept t s p ps e =
      let busy : is_idle s ≡ false = rw (is_idle, e) (ground arith) in rw (refill, busy) refl

  frame_after_pending :
      (t : Tick) (s : SubscriberState) (period : ℕ)
      → (frame_after x stale_timeout t.store epoch t.snapshot t.frame_sequence t.ack t.readings s
          period).0.pending
        ≡ s.pending
  unfolding frame_after
  frame_after_pending t s period =
      elim (Bool-cases
        (is_some_and s.last_frame_sent (λ sent. ltb (t.readings.due - sent) period))) [
          | inl early ↦ rw (early, frame_after) refl
          | inr due ↦
              elim (CursorResult-cases (
                encode_cursor_chunks epoch (pos 1) t.frame_sequence (
                  x.encode_frame (
                    assemble_cursor_frame x.parse_uuid t.store t.snapshot stale_timeout epoch
                      t.frame_sequence (watermark t.ack s) t.readings.assembled
                      t.readings.wall)))) [
                        | inr (e, f) ↦ rw (due, f, frame_after) refl
                        | inl (messages, f) ↦ rw (due, f, frame_after) refl
                      ]
        ]

  abbrev pub sent_again : Tick → PendingEvents → PendingEvents
  sent_again t p = record p { attempts = p.attempts + 1; last_sent = t.readings.sent }

  abbrev pub is_due : Tick → PendingEvents → Bool
  is_due t p =
      eqb p.attempts 0 || leb config.event_retry_interval (t.readings.checked - p.last_sent)

  -- Past the limit the turn removes the subscriber.
  pub turn_removes :
      (t : Tick) (s : SubscriberState) (p : PendingEvents) (ps : List PendingEvents)
      → s.pending ≡ p ∷ ps
      → t.ack < p.sequence
      → is_due t p ≡ true
      → config.event_retry_limit ≤ p.attempts
      → turn_at x config stale_timeout epoch t s ≡ value (none, [])
  unfolding subscriber_turn send_front
  turn_removes t s p ps e h due over =
      let past : leb config.event_retry_limit p.attempts ≡ true = ground arith in
      let front : send_front config t.readings s ≡ none = rw (send_front, e, due, past) refl in
      rw (subscriber_turn, waiting_kept t.ack s p ps e h, refill_kept t s p ps e, front) refl

  -- Up to it the turn sends the page again.
  pub turn_sends :
      (t : Tick) (s : SubscriberState) (p : PendingEvents) (ps : List PendingEvents)
      → s.pending ≡ p ∷ ps
      → t.ack < p.sequence
      → is_due t p ≡ true
      → p.attempts < config.event_retry_limit
      → (period : ℕ) → x.period (fmin t.requested_hz config.publish_hz) ≡ value period
      → (s' : SubscriberState) × (messages : List Message) × (turn_at x config stale_timeout epoch t
            s
          ≡ value (some s', messages))
        × (s'.pending ≡ sent_again t p ∷ ps)
  unfolding subscriber_turn send_front send_frame
  turn_sends t s p ps e h due under period f =
      let more : leb config.event_retry_limit p.attempts ≡ false = ground arith in
      let fronted : SubscriberState = record s { pending = sent_again t p ∷ ps } in
      let events = p.reset_messages ++ p.messages in
      let front : send_front config t.readings s ≡ some (fronted, events) =
        rw (send_front, e, due, more) refl in
      let framed =
        frame_after x stale_timeout t.store epoch t.snapshot t.frame_sequence t.ack t.readings
          fronted period in
      (
        framed.0,
        events ++ framed.1,
        rw
            (
              subscriber_turn,
              waiting_kept t.ack s p ps e h,
              refill_kept t s p ps e,
              front,
              send_frame,
              f,
            )
            refl,
        frame_after_pending t fronted period,
      )

  -- Before the page is due again the turn leaves it as it is.
  pub turn_waits :
      (t : Tick) (s : SubscriberState) (p : PendingEvents) (ps : List PendingEvents)
      → s.pending ≡ p ∷ ps
      → t.ack < p.sequence
      → is_due t p ≡ false
      → (period : ℕ) → x.period (fmin t.requested_hz config.publish_hz) ≡ value period
      → (s' : SubscriberState) × (messages : List Message) × (turn_at x config stale_timeout epoch t
            s
          ≡ value (some s', messages))
        × (s'.pending ≡ p ∷ ps)
  unfolding subscriber_turn send_front send_frame
  turn_waits t s p ps e h early period f =
      let front : send_front config t.readings s ≡ some (s, []) =
        rw (send_front, e, early) (ap (λ q. some (record s { pending = q }, [])) e) in
      let framed =
        frame_after x stale_timeout t.store epoch t.snapshot t.frame_sequence t.ack t.readings s
          period in
      (
        framed.0,
        [] ++ framed.1,
        rw
            (
              subscriber_turn,
              waiting_kept t.ack s p ps e h,
              refill_kept t s p ps e,
              front,
              send_frame,
              f,
            )
            refl,
        frame_after_pending t s period ∙ e,
      )
