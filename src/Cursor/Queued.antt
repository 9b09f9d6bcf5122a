-- ===== src/Cursor/Queued.antt =====
-- Each turn of the publisher of the cursor stream keeps a subscriber's pages in a row.
use fly_ruler_proto.Cursor.Chain.{
  IsNumberedPage, IsChain, IsQueued, IsChain-tail, second_unsent, front_of_none, head_resent,
}
use fly_ruler_proto.Cursor.Paged.{queue_pages-numbered, queue_pages-Settled, CursorResult-cases}
use fly_ruler_proto.Base.{
  All, ◌≤◌, refl, ◌≡◌, [], ◌∷◌, suc, true, false, Bool, ℕ, List, ◌⊎◌, inl, ◌++◌, arith, inr, ◌+◌,
  subst, length, eqb, ◌-◌, Bool-cases, ◌||◌, leb, not, some, none, Option-cases, is_some_and, ltb,
}
use fly_ruler_proto.Cursor.Events.{assemble_cursor_frame}
use fly_ruler_proto.Float.{F64, fmin}
use fly_ruler_proto.Timeline.{Outcome, value, map_outcome, panic}
use fly_ruler_proto.Store.{GlobalTimestampedEvent, TimeSeriesStore}
use fly_ruler_proto.Playback.{PlaybackSnapshot}
use fly_ruler_proto.Cursor.Subscriber.{
  Crates, Readings, SubscriberState, PendingEvents, CursorStreamConfig,
}
use fly_ruler_proto.Cursor.Publish.{
  acknowledge, queue_pages, queue_events, page_count, refill, is_idle, needs_baseline, events_for,
}
use fly_ruler_proto.Cursor.Send.{send_frame, send_front, subscriber_turn, frame_after, watermark}
use fly_ruler_proto.Base.Int.{pos}
use fly_ruler_proto.Cursor.{Message, encode_cursor_chunks}

List-cases : {A : Type 0} (xs : List A) → (xs ≡ []) ⊎ ((y : A) × (ys : List A) × (xs ≡ y ∷ ys))
List-cases [] = inl refl
List-cases (x ∷ xs) = inr (x, xs, refl)

value_same : {A : Type 0} {a b : A} → value a ≡ value b → a ≡ b
value_same e = cc e

mapped :
    {A B : Type 0} (f : A → B) (o : Outcome A) (b : B)
    → map_outcome f o ≡ value b
    → (a : A) × (o ≡ value a) × (f a ≡ b)
mapped f (value a) b e = (a, refl, cc e)
mapped f panic b e = absurd (cc e)

module _ (limit : ℕ) where
  acknowledge-IsQueued :
      (ack : ℕ) (s : SubscriberState) → IsQueued limit s → IsQueued limit (acknowledge ack s)
  unfolding acknowledge
  acknowledge-IsQueued ack s h = elim (List-cases s.pending) [
    | inl e ↦ rw (e, acknowledge) h
    | inr (p, ps, e) ↦
        let chain : IsChain true s.next_event_sequence (p ∷ ps) =
          subst (IsChain true s.next_event_sequence) e h.chain in
        let numbered : All IsNumberedPage (p ∷ ps) = subst (All IsNumberedPage) e h.numbered in
        elim (Bool-cases (leb p.sequence ack)) [
          | inr waiting ↦ rw (e, waiting, acknowledge) h
          | inl seen ↦ elim (Bool-cases p.final_page) [
            | inl last ↦
                rw (e, seen, last, acknowledge)
                  (record {
                    chain = IsChain-tail s.next_event_sequence p ps chain;
                    tried = second_unsent limit s.next_event_sequence p ps chain;
                    numbered = numbered.1;
                  })
            | inr more ↦
                rw (e, seen, more, acknowledge)
                  (record {
                    chain = IsChain-tail s.next_event_sequence p ps chain;
                    tried = second_unsent limit s.next_event_sequence p ps chain;
                    numbered = numbered.1;
                  })
          ]
        ]
  ]

  queue_events-IsQueued :
      (x : Crates) (epoch : List ℕ) (snapshot : PlaybackSnapshot) (baseline : Bool) (t : Readings)
      (s : SubscriberState) (events : List GlobalTimestampedEvent)
      → s.pending ≡ []
      → IsQueued limit (queue_events x epoch snapshot baseline t s events)
  queue_events-IsQueued x epoch snapshot baseline t s events e =
      let count = page_count (length events) in
      let some_pages : suc (count - 1) ≡ count = omega arith in
      elim (Bool-cases (baseline || not (eqb (length events) 0))) [
        | inr nothing ↦
            rw (nothing, queue_events)
              (record { chain = rw e tt; tried = rw e tt; numbered = rw e tt })
        | inl queue ↦
            let settled =
              queue_pages-Settled x epoch snapshot baseline events t.queued (count - 1) 0 s
                (omega arith) (rw e (tt, tt, tt)) in
            let result : SubscriberState =
              queue_pages x epoch snapshot baseline events t.queued (suc (count - 1)) 0 s in
            let queued : IsQueued limit result = record {
              chain = settled.0;
              tried = front_of_none limit result.pending settled.1;
              numbered =
                  queue_pages-numbered x epoch snapshot baseline events t.queued (suc (count - 1)) 0
                    s (rw e tt);
            } in
            rw (queue, queue_events) (rw some_pages at queued)
      ]

  refill-IsQueued :
      (x : Crates) (store : TimeSeriesStore) (epoch : List ℕ) (snapshot : PlaybackSnapshot)
      (t : Readings) (s s' : SubscriberState)
      → IsQueued limit s
      → refill x store epoch snapshot t s ≡ value s'
      → IsQueued limit s'
  unfolding refill
  refill-IsQueued x store epoch snapshot t s s' h e = elim (List-cases s.pending) [
    | inr (p, ps, f) ↦
        let busy : is_idle s ≡ false = rw (is_idle, f) (ground arith) in
        let same : s ≡ s' = value_same (rw (refill, busy) at e) in subst (IsQueued limit) same h
    | inl f ↦
        let idle : is_idle s ≡ true = rw (is_idle, f) refl in
        let (events, _, g) =
          mapped (queue_events x epoch snapshot (needs_baseline s snapshot) t s)
            (events_for store snapshot (needs_baseline s snapshot) s) s' (rw (refill, idle) at e) in
        subst (IsQueued limit) g
          (queue_events-IsQueued x epoch snapshot (needs_baseline s snapshot) t s events f)
  ]

  send_front-IsQueued :
      (config : CursorStreamConfig) (t : Readings) (s s' : SubscriberState)
      (messages : List Message)
      → config.event_retry_limit ≡ limit
      → IsQueued limit s
      → send_front config t s ≡ some (s', messages)
      → IsQueued limit s'
  unfolding send_front
  send_front-IsQueued config t s s' messages c h e = elim (List-cases s.pending) [
    | inl f ↦
        let g : some (s, []) ≡ some (s', messages) = rw (send_front, f) at e in
        subst (IsQueued limit) (cc g) h
    | inr (p, ps, f) ↦
        let chain : IsChain true s.next_event_sequence (p ∷ ps) =
          subst (IsChain true s.next_event_sequence) f h.chain in
        let numbered : All IsNumberedPage (p ∷ ps) = subst (All IsNumberedPage) f h.numbered in
        elim (Bool-cases
          (eqb p.attempts 0 || leb config.event_retry_interval (t.checked - p.last_sent))) [
            | inr wait ↦
                let g : some (s, []) ≡ some (s', messages) = rw (send_front, f, wait) at e in
                subst (IsQueued limit) (cc g) h
            | inl due ↦ elim (Bool-cases (leb config.event_retry_limit p.attempts)) [
              | inl over ↦
                  let g : none ≡ some (s', messages) = rw (send_front, f, due, over) at e in
                  absurd (cc g)
              | inr under ↦
                  let tried : p.attempts + 1 ≤ limit = ground arith in
                  let sent : PendingEvents = record p {
                    attempts = p.attempts + 1;
                    last_sent = t.sent;
                  } in
                  let g : some (record s { pending = sent ∷ ps }, p.reset_messages ++ p.messages)
                      ≡ some (s', messages) =
                    rw (send_front, f, due, under) at e in
                  let queued : IsQueued limit (record s { pending = sent ∷ ps }) = record {
                    chain = head_resent s.next_event_sequence p sent ps refl refl refl refl chain;
                    tried = tried;
                    numbered = numbered;
                  } in
                  subst (IsQueued limit) (cc g) queued
            ]
          ]
  ]

  frame_after-IsQueued :
      (x : Crates) (stale_timeout : ℕ) (store : TimeSeriesStore) (epoch : List ℕ)
      (snapshot : PlaybackSnapshot) (frame_sequence ack : ℕ) (t : Readings) (s : SubscriberState)
      (period : ℕ)
      → IsQueued limit s
      → IsQueued limit
          (frame_after x stale_timeout store epoch snapshot frame_sequence ack t s period).0
  unfolding frame_after
  frame_after-IsQueued x stale_timeout store epoch snapshot frame_sequence ack t s period h =
      elim (Bool-cases (is_some_and s.last_frame_sent (λ sent. ltb (t.due - sent) period))) [
        | inl early ↦ rw (early, frame_after) h
        | inr due ↦
            elim (CursorResult-cases (
              encode_cursor_chunks epoch (pos 1) frame_sequence (
                x.encode_frame (
                  assemble_cursor_frame x.parse_uuid store snapshot stale_timeout epoch
                    frame_sequence (watermark ack s) t.assembled t.wall)))) [
                      | inr (e, f) ↦ rw (due, f, frame_after) h
                      | inl (messages, f) ↦
                          rw (due, f, frame_after)
                            (record { chain = h.chain; tried = h.tried; numbered = h.numbered })
                    ]
      ]

  send_frame-IsQueued :
      (x : Crates) (config : CursorStreamConfig) (stale_timeout : ℕ) (store : TimeSeriesStore)
      (epoch : List ℕ) (snapshot : PlaybackSnapshot) (frame_sequence ack : ℕ) (requested_hz : F64)
      (t : Readings) (s : SubscriberState) (framed : SubscriberState × List Message)
      → IsQueued limit s
      → send_frame x config stale_timeout store epoch snapshot frame_sequence ack requested_hz t s
        ≡ value framed
      → IsQueued limit framed.0
  unfolding send_frame
  send_frame-IsQueued x config stale_timeout store epoch snapshot frame_sequence ack requested_hz t
        s framed h e =
      let (period, _, g) =
        mapped (frame_after x stale_timeout store epoch snapshot frame_sequence ack t s)
          (x.period (fmin requested_hz config.publish_hz)) framed e in
      subst (λ f. IsQueued limit f.0) g
        (frame_after-IsQueued x stale_timeout store epoch snapshot frame_sequence ack t s period h)

  Outcome-cases : {A : Type 0} (o : Outcome A) → ((a : A) × (o ≡ value a)) ⊎ (o ≡ panic)
  Outcome-cases (value a) = inl (a, refl)
  Outcome-cases panic = inr refl

  pub subscriber_turn-IsQueued :
      (x : Crates) (config : CursorStreamConfig) (stale_timeout : ℕ) (store : TimeSeriesStore)
      (epoch : List ℕ) (snapshot : PlaybackSnapshot) (frame_sequence ack : ℕ) (requested_hz : F64)
      (t : Readings) (s s' : SubscriberState) (messages : List Message)
      → config.event_retry_limit ≡ limit
      → IsQueued limit s
      → subscriber_turn x config stale_timeout store epoch snapshot frame_sequence ack requested_hz
          t s
        ≡ value (some s', messages)
      → IsQueued limit s'
  unfolding subscriber_turn
  subscriber_turn-IsQueued x config stale_timeout store epoch snapshot frame_sequence ack
        requested_hz t s s' messages c h e =
      elim (Outcome-cases (refill x store epoch snapshot t (acknowledge ack s))) [
        | inr f ↦
            let g : panic ≡ value (some s', messages) = rw (subscriber_turn, f) at e in
            absurd (cc g)
        | inl (filled, f) ↦
            let queued =
              refill-IsQueued x store epoch snapshot t (acknowledge ack s) filled
                (acknowledge-IsQueued ack s h) f in
            elim (Option-cases (send_front config t filled)) [
              | inl g ↦
                  let k : value (none, []) ≡ value (some s', messages) =
                    rw (subscriber_turn, f, g) at e in
                  absurd (cc k)
              | inr ((fronted, events), g) ↦
                  let (framed, framing, k) =
                    mapped (λ framed. (some framed.0, events ++ framed.1))
                      (send_frame x config stale_timeout store epoch snapshot frame_sequence ack
                        requested_hz t fronted)
                      (some s', messages) (rw (subscriber_turn, f, g) at e) in
                  subst (IsQueued limit) (cc k) (
                    send_frame-IsQueued x config stale_timeout store epoch snapshot frame_sequence
                      ack requested_hz t fronted framed
                      (send_front-IsQueued config t filled fronted events c queued g) framing)
            ]
      ]
