-- ===== src/Cursor/Delivered.antt =====
-- In which order a client of the cursor stream hands items on.
use fly_ruler_proto.Cursor.Numbered.{
  IsNumbered, HasNumber, HasBatchNumber, completed, completed_by, payload_of,
  take_arrival-reassembler,
}
use fly_ruler_proto.Base.{
  sym, refl, none, some, [], ◌∷◌, zero, suc, List, Option, ◌<◌, ℕ, ◌≡◌, ◌≤◌, Bool-cases, ap, leb,
  inl, ◌&&◌, inr, ◌∙◌, Bool, not, subst, false, arith, Option-cases, is_none_or, ltb, ◌-◌, true,
  ◌++◌,
}
use fly_ruler_proto.Cursor.View.{Follows, View, IsOrdered, view_of, before_batch, blank_view}
use fly_ruler_proto.Base.Equality.{string_eq, ◌==◌}
use fly_ruler_proto.Cursor.{done, invalid, CursorChunk, CursorReassembler, push, CursorResult}
use fly_ruler_proto.Cursor.Payloads.{
  unspecified, frame_kind, batch_kind, reset_kind, CursorClientEvent, CursorEventBatch, Decoders,
  CursorFrame, CursorReset, CursorPayloadKind, cursor_payload_kind,
}
use fly_ruler_proto.Cursor.Client.{
  failed, garbled, arrived, item, failure, CursorClient, accept_reset, enter_revision, accept_batch,
  accept_frame, enter_epoch, epoch_of, Received, is_revision, ClientArrival, ClientDatagram,
  drop_frame, new_client, count_datagram,
}
use fly_ruler_proto.Cursor.Receive.{
  accept_payload, receive_loop, accept_chunk_of, receive_calls, take_datagram, accept_pushed, recv,
  take_arrival, chunk_in, count_failures, item_in,
}

accept_frame-Follows :
    (f : CursorFrame) (c : CursorClient)
    → Follows (view_of c) (accept_frame f c).0 (accept_frame f c).1
unfolding accept_frame
accept_frame-Follows f c = elim (Bool-cases (leb f.frame_sequence c.last_frame_sequence)) [
  | inl old ↦ rw old refl
  | inr new ↦ elim (Bool-cases (leb f.event_watermark c.applied_event_sequence)) [
    | inl known ↦ rw (new, known) ((ground arith, ground arith), refl)
    | inr ahead ↦
        elim (Bool-cases
          (is_none_or c.pending_frame (λ current. ltb current.frame_sequence f.frame_sequence))) [
            | inl replace ↦ rw (new, ahead, replace) refl
            | inr keep ↦ rw (new, ahead, keep) refl
          ]
  ]
]

entered_view :
    (b : CursorEventBatch) (c : CursorClient)
    → view_of (enter_revision b (enter_epoch b c)) ≡ before_batch b (view_of c)
unfolding enter_revision enter_epoch
entered_view b c = elim (Bool-cases (c.stream_epoch == epoch_of b.server_epoch)) [
  | inl same ↦ elim (Bool-cases (b.baseline && not (is_revision c.baseline_revision b.revision))) [
    | inl start ↦ rw (same, start) refl
    | inr go ↦ rw (same, go) refl
  ]
  | inr other ↦ elim (Bool-cases (b.baseline && not false)) [
    | inl start ↦ rw (other, start) refl
    | inr go ↦ rw (other, go) refl
  ]
]

-- A batch that is numbered from 1 and is not newer changes nothing.
stale_batch :
    (b : CursorEventBatch) (v : View)
    → 0 < b.event_sequence
    → b.event_sequence ≤ (before_batch b v).batch
    → before_batch b v ≡ v
stale_batch b v p h = elim (Bool-cases (v.epoch == epoch_of b.server_epoch)) [
  | inl same ↦ elim (Bool-cases (b.baseline && not (is_revision v.revision b.revision))) [
    | inl start ↦ absurd (omega (arith, rw (same, start) at h))
    | inr go ↦ rw (same, go) refl
  ]
  | inr other ↦ elim (Bool-cases (b.baseline && not false)) [
    | inl start ↦ absurd (omega (arith, rw (other, start) at h))
    | inr go ↦ absurd (omega (arith, rw (other, go) at h))
  ]
]

accept_batch-Follows :
    (b : CursorEventBatch) (c : CursorClient)
    → 0 < b.event_sequence
    → Follows (view_of c) (accept_batch b c).0 (accept_batch b c).1
unfolding accept_batch
accept_batch-Follows b c p =
    let c' = enter_revision b (enter_epoch b c) in
    let same = entered_view b c in
    let number : c'.applied_event_sequence ≡ (before_batch b (view_of c)).batch =
      ap (λ v. v.batch) same in
    elim (Bool-cases (leb b.event_sequence c'.applied_event_sequence)) [
      | inl old ↦ rw old (
          same
          ∙ stale_batch b (view_of c) p (subst (λ n. b.event_sequence ≤ n) number (ground arith)))
      | inr new ↦ rw new (
        subst (λ n. n < b.event_sequence) number (ground arith),
        ap {B = View} (λ (v : View). record v { batch = b.event_sequence }) same,
      )
    ]

accept_reset-Follows :
    (r : CursorReset) (c : CursorClient)
    → Follows (view_of c) (accept_reset r c).0 (accept_reset r c).1
unfolding accept_reset
accept_reset-Follows r c =
    elim (Bool-cases
      (c.stream_epoch == epoch_of r.server_epoch && is_revision c.baseline_revision r.revision)) [
        | inl same ↦ rw same refl
        | inr other ↦ rw other (other, refl)
      ]

followed :
    (v : View) (c : CursorClient) (result : Option Received) (events : List CursorClientEvent)
    → Follows v c result
    → IsOrdered (view_of c) events
    → IsOrdered v (item_in result ++ events)
followed v c none events f h = subst (λ w. IsOrdered w events) f h
followed v c (some (failure e)) events f h = subst (λ w. IsOrdered w events) f h
followed v c (some (item e)) events f h = (f.0, subst (λ w. IsOrdered w events) f.1 h)

module _ (d : Decoders) where
  accept_payload-Follows :
      (kind : CursorPayloadKind) (payload : List ℕ) (sendable : Bool) (c : CursorClient)
      → HasBatchNumber d (some (kind, payload))
      → Follows
          (view_of c)
          (accept_payload d kind payload sendable c).0
          (accept_payload d kind payload sendable c).1
  unfolding accept_payload
  accept_payload-Follows frame_kind payload sendable c h =
      elim (Option-cases (d.decode_frame payload)) [
        | inl e ↦ rw (e, accept_payload) refl
        | inr (f, e) ↦ rw (e, accept_payload) (accept_frame-Follows f c)
      ]
  accept_payload-Follows batch_kind payload true c h =
      elim (Option-cases (d.decode_batch payload)) [
        | inl e ↦ rw (e, accept_payload) refl
        | inr (b, e) ↦ rw (e, accept_payload) (accept_batch-Follows b c (subst HasNumber e h))
      ]
  accept_payload-Follows batch_kind payload false c h =
      elim (Option-cases (d.decode_batch payload)) [
        | inl e ↦ rw (e, accept_payload) refl
        | inr (b, e) ↦ rw (e, accept_payload) refl
      ]
  accept_payload-Follows reset_kind payload sendable c h =
      elim (Option-cases (d.decode_reset payload)) [
        | inl e ↦ rw (e, accept_payload) refl
        | inr (r, e) ↦ rw (e, accept_payload) (accept_reset-Follows r c)
      ]
  accept_payload-Follows unspecified payload sendable c h = refl

  pushed-Follows :
      (kind : CursorPayloadKind) (sendable : Bool) (c : CursorClient) (r : CursorReassembler)
      (o : CursorResult (Option (List ℕ)))
      → HasBatchNumber d (payload_of kind o)
      → Follows
          (view_of c)
          (accept_pushed d kind sendable c r o).0
          (accept_pushed d kind sendable c r o).1
  unfolding accept_pushed
  pushed-Follows kind sendable c r (invalid e) h = refl
  pushed-Follows kind sendable c r (done none) h = refl
  pushed-Follows kind sendable c r (done (some payload)) h =
      accept_payload-Follows kind payload sendable
        (count_failures (r.expired_payloads - c.reassembler.expired_payloads)
          (record c { reassembler = r }))
        h

  accept_chunk_of-Follows :
      (kind : CursorPayloadKind) (chunk : CursorChunk) (a : ClientArrival) (c : CursorClient)
      → HasBatchNumber d (payload_of kind (push a.clock chunk c.reassembler).1)
      → Follows
          (view_of c)
          (accept_chunk_of d kind chunk a c).0
          (accept_chunk_of d kind chunk a c).1
  unfolding accept_chunk_of
  accept_chunk_of-Follows kind chunk a c h =
      pushed-Follows kind a.sendable c (push a.clock chunk c.reassembler).0
        (push a.clock chunk c.reassembler).1 h

  datagram-Follows :
      (a : ClientArrival) (c : CursorClient) (m : ClientDatagram)
      → HasBatchNumber d (completed_by a m c.reassembler).1
      → Follows (view_of c) (take_datagram d a m c).0 (take_datagram d a m c).1
  unfolding take_datagram completed_by
  datagram-Follows a c failed h = refl
  datagram-Follows a c garbled h = refl
  datagram-Follows a c (arrived msg) h = elim (Option-cases (chunk_in msg)) [
    | inl e ↦ rw (take_datagram, e) refl
    | inr (chunk, e) ↦ elim (Option-cases (cursor_payload_kind chunk.kind)) [
      | inl k ↦ rw (take_datagram, e, k) refl
      | inr (kind, k) ↦
          rw (take_datagram, e, k)
            (accept_chunk_of-Follows kind chunk a (count_datagram c) (rw (completed_by, e, k) at h))
    ]
  ]

  take_arrival-Follows :
      (a : ClientArrival) (c : CursorClient)
      → HasBatchNumber d (completed a c.reassembler).1
      → Follows (view_of c) (take_arrival d a c).0 (take_arrival d a c).1
  unfolding take_arrival
  take_arrival-Follows a c h = datagram-Follows a c a.datagram h

  -- A result that the view allows, with numbered batches in what is still to arrive.
  abbrev GoesOn : View → CursorClient × Option Received × List ClientArrival → Type 0
  GoesOn v (c, result, arrivals) = Follows v c result × IsNumbered d arrivals c.reassembler

  receive_loop-GoesOn :
      (arrivals : List ClientArrival) (c : CursorClient)
      → IsNumbered d arrivals c.reassembler
      → GoesOn (view_of c) (receive_loop d arrivals c)
  unfolding receive_loop
  receive_loop-GoesOn [] c h = (refl, tt)
  receive_loop-GoesOn (a ∷ arrivals) c h =
      let here = take_arrival-Follows a c h.0 in
      let rest : IsNumbered d arrivals (take_arrival d a c).0.reassembler =
        subst (IsNumbered d arrivals) (sym (take_arrival-reassembler d a c)) h.1 in
      elim (Option-cases (take_arrival d a c).1) [
        | inr (r, e) ↦ rw (e, receive_loop) (rw e at here, rest)
        | inl e ↦
            let kept : view_of (take_arrival d a c).0 ≡ view_of c = rw e at here in
            rw (e, receive_loop)
              (subst (λ v. GoesOn v (receive_loop d arrivals (take_arrival d a c).0)) kept
                (receive_loop-GoesOn arrivals (take_arrival d a c).0 rest))
      ]

  recv-GoesOn :
      (arrivals : List ClientArrival) (c : CursorClient)
      → IsNumbered d arrivals c.reassembler
      → GoesOn (view_of c) (recv d arrivals c)
  unfolding recv
  recv-GoesOn arrivals c h = elim (Option-cases c.pending_frame) [
    | inl e ↦ rw (recv, e) (receive_loop-GoesOn arrivals c h)
    | inr (f, e) ↦ elim (Bool-cases (leb f.event_watermark c.applied_event_sequence)) [
      | inr ahead ↦ rw (recv, e, ahead) (receive_loop-GoesOn arrivals c h)
      | inl known ↦ elim (Bool-cases (ltb c.last_frame_sequence f.frame_sequence)) [
        | inl newer ↦ rw (recv, e, known, newer) (((ground arith, ground arith), refl), h)
        | inr old ↦
            rw (recv, e, known, old)
              (receive_loop-GoesOn arrivals (drop_frame (record c { pending_frame = none })) h)
      ]
    ]
  ]

  calls-IsOrdered :
      (calls : ℕ) (arrivals : List ClientArrival) (c : CursorClient)
      → IsNumbered d arrivals c.reassembler
      → IsOrdered (view_of c) (receive_calls d calls arrivals c)
  unfolding receive_calls
  calls-IsOrdered zero arrivals c h = tt
  calls-IsOrdered (suc calls) arrivals c h =
      let on : GoesOn (view_of c) (recv d arrivals c) = recv-GoesOn arrivals c h in
      let (c', result, rest) = recv d arrivals c in
      followed (view_of c) c' result (receive_calls d calls rest c') on.0
        (calls-IsOrdered calls rest c' on.1)

-- For arrivals at a new client, lost, repeated, out of order or in error as they may be, such that
-- each event batch among the payloads that they complete is numbered from 1: among the items that
-- its calls return, each frame has a greater number than the frame before it, and the last batch
-- before it has at least the number of the events that the frame builds on; each batch has a
-- greater number than the batch before it; both start anew at a reset and at a batch of another
-- epoch, and the batches also at a baseline of another revision. No reset repeats the epoch and
-- the revision that it finds.
pub receive_calls-IsOrdered :
    (d : Decoders) (calls : ℕ) (arrivals : List ClientArrival)
    → IsNumbered d arrivals new_client.reassembler
    → IsOrdered blank_view (receive_calls d calls arrivals new_client)
receive_calls-IsOrdered d calls arrivals numbered =
    calls-IsOrdered d calls arrivals new_client numbered
