-- ===== src/Cursor/Removed.antt =====
-- A subscriber of the cursor stream that acknowledges nothing more.
use fly_ruler_proto.Base.{
  zero, suc, Any, ◌*◌, [], ◌∷◌, List, ℕ, ◌≡◌, ◌<◌, ◌+◌, Bool-cases, ◌≤◌, leb, none, false, arith,
  ◌-◌, inl, refl, inr, leb→le,
}
use fly_ruler_proto.Float.{fmin}
use fly_ruler_proto.Timeline.{value}
use fly_ruler_proto.Cursor.Subscriber.{Crates, CursorStreamConfig, SubscriberState, PendingEvents}
use fly_ruler_proto.Cursor.Turns.{Tick, run_turns}
use fly_ruler_proto.Cursor.Waiting.{turn_removes, turn_sends, turn_waits, is_due, sent_again}

one_less : (n d : ℕ) → 0 < n → n * d ≡ d + (n - 1) * d
one_less zero d h = absurd (omega arith)
one_less (suc n) d h = grind arith

reached_later :
    (deadline : ℕ) (t : Tick) (ticks : List Tick)
    → t.readings.checked ≤ deadline
    → Any (λ u. deadline < u.readings.checked) (t ∷ ticks)
    → Any (λ u. deadline < u.readings.checked) ticks
reached_later deadline t ticks h (inl e) = absurd (omega (arith, h, e))
reached_later deadline t ticks h (inr m) = m

module _ (x : Crates) (config : CursorStreamConfig) (stale_timeout : ℕ) (epoch : List ℕ) where
  -- No tick finds the page of this number acknowledged. The clock does not go back within a tick, a
  -- tick sends at most `gap` after the one before it checked the clock (`now`), and a frame period can
  -- be computed at each.
  abbrev pub IsSilent : ℕ → ℕ → ℕ → List Tick → Type 0
  IsSilent number gap now [] = Unit
  IsSilent number gap now (t ∷ ticks) =
      (t.ack < number)
      × (t.readings.checked ≤ t.readings.sent)
      × (t.readings.sent ≤ now + gap)
      × ((period : ℕ) × (x.period (fmin t.requested_hz config.publish_hz) ≡ value period))
      × IsSilent number gap t.readings.checked ticks

  not_due :
      (t : Tick) (p : PendingEvents)
      → is_due x config stale_timeout epoch t p ≡ false
      → t.readings.checked < p.last_sent + config.event_retry_interval
  not_due t p h = ground arith

  -- With `left` sendings left up to the limit.
  removed_in :
      (left gap now deadline : ℕ) (ticks : List Tick) (s : SubscriberState) (p : PendingEvents)
      (ps : List PendingEvents)
      → s.pending ≡ p ∷ ps
      → IsSilent p.sequence gap now ticks
      → now ≤ p.last_sent + config.event_retry_interval
      → config.event_retry_limit ≤ p.attempts + left
      → p.last_sent + left * (config.event_retry_interval + gap) + config.event_retry_interval
        ≤ deadline
      → Any (λ t. deadline < t.readings.checked) ticks
      → run_turns x config stale_timeout epoch ticks s ≡ value none
  unfolding run_turns
  removed_in left gap now deadline [] s p ps e h near few soon m = absurd m
  removed_in left gap now deadline (t ∷ ticks) s p ps e h near few soon m =
      let (period, f) = h.3 in
      let wait = config.event_retry_interval + gap in
      elim (Bool-cases (is_due x config stale_timeout epoch t p)) [
        | inr early ↦
            let (s', messages, turned, kept) =
              turn_waits x config stale_timeout epoch t s p ps e h.0 early period f in
            let before : t.readings.checked < p.last_sent + config.event_retry_interval =
              not_due t p early in
            rw (run_turns, turned)
              (removed_in left gap t.readings.checked deadline ticks s' p ps kept h.4
                (omega (arith, before)) few soon
                (reached_later deadline t ticks (omega (arith, before, soon)) m))
        | inl due ↦ elim (Bool-cases (leb config.event_retry_limit p.attempts)) [
          | inl over ↦
              rw
                (
                  run_turns,
                  turn_removes x config stale_timeout epoch t s p ps e h.0 due
                      (leb→le config.event_retry_limit p.attempts over),
                )
                refl
          | inr under ↦
              let few_sent : p.attempts < config.event_retry_limit = ground arith in
              let (s', messages, turned, kept) =
                turn_sends x config stale_timeout epoch t s p ps e h.0 due few_sent period f in
              let split = one_less left wait (omega (arith, few_sent, few)) in
              let resent : t.readings.sent + (left - 1) * wait + config.event_retry_interval
                  ≤ deadline =
                omega (arith, split, soon, near, h.2) in
              rw (run_turns, turned)
                (removed_in (left - 1) gap t.readings.checked deadline ticks s'
                  (sent_again x config stale_timeout epoch t p) ps kept h.4 (omega (arith, h.1))
                  (omega (arith, few, few_sent)) resent
                  (reached_later deadline t ticks (omega (arith, resent, h.1)) m))
        ]
      ]

  -- For a subscriber that waits for a page to be acknowledged, over ticks at none of which it is
  -- acknowledged, each of which sends, if it does, at most a gap after the tick before it checked
  -- the clock, no earlier than it checks the clock itself, and with a frame period that can be
  -- computed; where the first of these ticks follows on one no later than the retry interval after
  -- the page was last sent: if some tick is later than that sending by the retry interval, and by
  -- the retry interval and the gap for each attempt left up to the limit, then the subscriber is
  -- removed within the ticks, and nothing panics.
  pub run_turns-removes :
      (gap now : ℕ) (ticks : List Tick) (s : SubscriberState) (p : PendingEvents)
      (ps : List PendingEvents)
      → s.pending ≡ p ∷ ps
      → IsSilent p.sequence gap now ticks
      → now ≤ p.last_sent + config.event_retry_interval
      → Any
          (λ t.
            p.last_sent
              + (config.event_retry_limit - p.attempts) * (config.event_retry_interval + gap)
              + config.event_retry_interval
            < t.readings.checked)
          ticks
      → run_turns x config stale_timeout epoch ticks s ≡ value none
  run_turns-removes gap now ticks s p ps e h near m =
      removed_in (config.event_retry_limit - p.attempts) gap now _ ticks s p ps e h near
        (omega arith) (omega arith) m
