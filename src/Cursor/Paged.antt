-- ===== src/Cursor/Paged.antt =====
-- The pages that the publisher of the cursor stream queues for one snapshot.
use fly_ruler_proto.Cursor.Chain.{IsNumberedPage, IsChain, IsFrontTried, IsChain-concat, front_kept}
use fly_ruler_proto.Base.{
  ◌<◌, zero, refl, ◌≡◌, [], ◌∷◌, suc, true, false, Bool, ℕ, List, ◌⊎◌, inl, ◌++◌, All, arith, inr,
  ◌+◌, eqb, All-append,
}
use fly_ruler_proto.Store.{GlobalTimestampedEvent}
use fly_ruler_proto.Playback.{PlaybackSnapshot}
use fly_ruler_proto.Cursor.Subscriber.{Crates, SubscriberState}
use fly_ruler_proto.Cursor.Publish.{queue_pages, next_sequence, event_page, pages, event_batch_of}
use fly_ruler_proto.Base.Int.{pos}
use fly_ruler_proto.Cursor.{done, invalid, CursorResult, CursorError, Message, encode_cursor_chunks}

-- What holds while the pages of a snapshot are queued.
abbrev IsPartial : PlaybackSnapshot → SubscriberState → Type 0
IsPartial snapshot s =
    IsChain false s.next_event_sequence s.pending
    × All (λ p. (p.revision ≡ snapshot.revision) × (p.cursor ≡ snapshot.cursor_secs)) s.pending
    × IsFrontTried 0 s.pending

pub CursorResult-cases :
    {A : Type 0} (r : CursorResult A)
    → ((a : A) × (r ≡ done a)) ⊎ ((e : CursorError) × (r ≡ invalid e))
CursorResult-cases (done a) = inl (a, refl)
CursorResult-cases (invalid e) = inr (e, refl)

module _ (x : Crates) (epoch : List ℕ) (snapshot : PlaybackSnapshot) (baseline : Bool)
    (events : List GlobalTimestampedEvent) (at : ℕ → ℕ) where
  queued_page :
      (rounds index : ℕ) (s : SubscriberState) (messages : List Message)
      → index + suc rounds ≡ pages x epoch snapshot baseline events at
      → IsPartial snapshot s
      → IsChain (eqb rounds 0) (next_sequence s.next_event_sequence) (
          s.pending
          ++ event_page x epoch snapshot baseline events at s
              (next_sequence s.next_event_sequence)
              index
              messages
            ∷ [])
  queued_page rounds index s messages left h =
      IsChain-concat (eqb rounds 0) s.next_event_sequence s.pending
        (event_page x epoch snapshot baseline events at s (next_sequence s.next_event_sequence)
          index messages)
        h.0 h.1 refl (ground arith) refl

  abbrev pub Settled : SubscriberState → Type 0
  Settled s = IsChain true s.next_event_sequence s.pending × IsFrontTried 0 s.pending

  abbrev with_page : SubscriberState → ℕ → List Message → SubscriberState
  with_page s index messages = record s {
    next_event_sequence = next_sequence s.next_event_sequence;
    pending =
        s.pending
        ++ event_page x epoch snapshot baseline events at s (next_sequence s.next_event_sequence)
            index messages
          ∷ [];
  }

  with_page-IsPartial :
      (rounds index : ℕ) (s : SubscriberState) (messages : List Message)
      → index + suc (suc rounds) ≡ pages x epoch snapshot baseline events at
      → IsPartial snapshot s
      → IsPartial snapshot (with_page s index messages)
  with_page-IsPartial rounds index s messages left h =
      let page =
        event_page x epoch snapshot baseline events at s (next_sequence s.next_event_sequence) index
          messages in
      let more : eqb (suc rounds) 0 ≡ false = ground arith in
      (
        rw more at (queued_page (suc rounds) index s messages left h),
        All-append (λ p. (p.revision ≡ snapshot.revision) × (p.cursor ≡ snapshot.cursor_secs))
            s.pending (page ∷ []) h.1 ((refl, refl), tt),
        front_kept s.pending page h.2 refl,
      )

  pub queue_pages-Settled :
      (rounds index : ℕ) (s : SubscriberState)
      → index + suc rounds ≡ pages x epoch snapshot baseline events at
      → IsPartial snapshot s
      → Settled (queue_pages x epoch snapshot baseline events at (suc rounds) index s)
  unfolding queue_pages
  queue_pages-Settled zero index s left h =
      let sequence = next_sequence s.next_event_sequence in
      elim (CursorResult-cases (
        encode_cursor_chunks epoch (pos 2) sequence
          (x.encode_batch (event_batch_of x epoch snapshot baseline events at sequence index)))) [
            | inr (e, f) ↦ rw (f, queue_pages) (tt, tt)
            | inl (messages, f) ↦
                rw (f, queue_pages)
                  (
                    queued_page 0 index s messages left h,
                    front_kept s.pending
                        (event_page x epoch snapshot baseline events at s sequence index messages)
                        h.2 refl,
                  )
          ]
  queue_pages-Settled (suc rounds) index s left h =
      let sequence = next_sequence s.next_event_sequence in
      elim (CursorResult-cases (
        encode_cursor_chunks epoch (pos 2) sequence
          (x.encode_batch (event_batch_of x epoch snapshot baseline events at sequence index)))) [
            | inr (e, f) ↦ rw (f, queue_pages) (tt, tt)
            | inl (messages, f) ↦
                rw (f, queue_pages)
                  (queue_pages-Settled rounds (index + 1) (with_page s index messages)
                    (omega (arith, left)) (with_page-IsPartial rounds index s messages left h))
          ]

  -- No page gets the number 0.
  pub queue_pages-numbered :
      (rounds index : ℕ) (s : SubscriberState)
      → All IsNumberedPage s.pending
      → All IsNumberedPage (queue_pages x epoch snapshot baseline events at rounds index s).pending
  unfolding queue_pages
  queue_pages-numbered zero index s h = h
  queue_pages-numbered (suc rounds) index s h =
      let sequence = next_sequence s.next_event_sequence in
      elim (CursorResult-cases (
        encode_cursor_chunks epoch (pos 2) sequence
          (x.encode_batch (event_batch_of x epoch snapshot baseline events at sequence index)))) [
            | inr (e, f) ↦ rw (f, queue_pages) tt
            | inl (messages, f) ↦
                let page =
                  event_page x epoch snapshot baseline events at s sequence index messages in
                let positive : 0 < sequence = omega arith in
                rw (f, queue_pages)
                  (queue_pages-numbered rounds (index + 1) (with_page s index messages)
                    (All-append IsNumberedPage s.pending (page ∷ []) h (positive, tt)))
          ]
