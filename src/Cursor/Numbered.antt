-- ===== src/Cursor/Numbered.antt =====
-- The payloads that arrivals complete, and that the batches among them are numbered.
use fly_ruler_proto.Cursor.Client.{
  count_datagram, failed, garbled, arrived, CursorClient, ClientArrival, ClientDatagram,
  accept_frame, accept_batch, accept_reset, enter_epoch, enter_revision,
}
use fly_ruler_proto.Base.{
  refl, [], ◌∷◌, List, none, some, true, false, inl, inr, ◌≡◌, Option, ℕ, Bool, Option-cases, arith,
  ◌<◌,
}
use fly_ruler_proto.Base.Equality.{string_eq}
use fly_ruler_proto.Cursor.{done, invalid, push, CursorReassembler, CursorResult}
use fly_ruler_proto.Cursor.Payloads.{
  batch_kind, frame_kind, reset_kind, unspecified, Decoders, CursorPayloadKind, CursorEventBatch,
  cursor_payload_kind, CursorFrame, CursorReset,
}
use fly_ruler_proto.Cursor.Receive.{
  chunk_in, accept_payload, accept_pushed, accept_chunk_of, take_datagram, take_arrival,
}

abbrev pub payload_of :
    CursorPayloadKind → CursorResult (Option (List ℕ)) → Option (CursorPayloadKind × List ℕ)
payload_of kind (done (some payload)) = some (kind, payload)
payload_of kind (done none) = none
payload_of kind (invalid e) = none

-- What a reassembler makes of an arrival: its next state, and the payload that is complete now.
unfoldable pub completed_by :
    ClientArrival
    → ClientDatagram
    → CursorReassembler
    → CursorReassembler × Option (CursorPayloadKind × List ℕ)
completed_by a failed r = (r, none)
completed_by a garbled r = (r, none)
completed_by a (arrived msg) r = elim (chunk_in msg) [
  | none ↦ (r, none)
  | some chunk ↦ elim (cursor_payload_kind chunk.kind) [
    | none ↦ (r, none)
    | some kind ↦ ((push a.clock chunk r).0, payload_of kind (push a.clock chunk r).1)
  ]
]

abbrev pub completed :
    ClientArrival → CursorReassembler → CursorReassembler × Option (CursorPayloadKind × List ℕ)
completed a r = completed_by a a.datagram r

abbrev pub HasNumber : Option CursorEventBatch → Type 0
HasNumber none = Unit
HasNumber (some b) = 0 < b.event_sequence

abbrev pub HasBatchNumber : Decoders → Option (CursorPayloadKind × List ℕ) → Type 0
HasBatchNumber d (some (batch_kind, payload)) = HasNumber (d.decode_batch payload)
HasBatchNumber d payload = Unit

-- Each event batch among the payloads that the arrivals complete is numbered from 1.
abbrev pub IsNumbered : Decoders → List ClientArrival → CursorReassembler → Type 0
IsNumbered d [] r = Unit
IsNumbered d (a ∷ arrivals) r =
    HasBatchNumber d (completed a r).1 × IsNumbered d arrivals (completed a r).0

accept_frame-reassembler :
    (f : CursorFrame) (c : CursorClient) → (accept_frame f c).0.reassembler ≡ c.reassembler
unfolding accept_frame
accept_frame-reassembler f c = ground arith

accept_batch-reassembler :
    (b : CursorEventBatch) (c : CursorClient) → (accept_batch b c).0.reassembler ≡ c.reassembler
unfolding accept_batch enter_epoch enter_revision
accept_batch-reassembler b c = ground arith

accept_reset-reassembler :
    (r : CursorReset) (c : CursorClient) → (accept_reset r c).0.reassembler ≡ c.reassembler
unfolding accept_reset
accept_reset-reassembler r c = ground arith

accept_payload-reassembler :
    (d : Decoders) (kind : CursorPayloadKind) (payload : List ℕ) (sendable : Bool)
    (c : CursorClient)
    → (accept_payload d kind payload sendable c).0.reassembler ≡ c.reassembler
unfolding accept_payload
accept_payload-reassembler d frame_kind payload sendable c =
    elim (Option-cases (d.decode_frame payload)) [
      | inl e ↦ rw (e, accept_payload) refl
      | inr (f, e) ↦ rw (e, accept_payload) (accept_frame-reassembler f c)
    ]
accept_payload-reassembler d batch_kind payload true c =
    elim (Option-cases (d.decode_batch payload)) [
      | inl e ↦ rw (e, accept_payload) refl
      | inr (b, e) ↦ rw (e, accept_payload) (accept_batch-reassembler b c)
    ]
accept_payload-reassembler d batch_kind payload false c =
    elim (Option-cases (d.decode_batch payload)) [
      | inl e ↦ rw (e, accept_payload) refl
      | inr (b, e) ↦ rw (e, accept_payload) refl
    ]
accept_payload-reassembler d reset_kind payload sendable c =
    elim (Option-cases (d.decode_reset payload)) [
      | inl e ↦ rw (e, accept_payload) refl
      | inr (r, e) ↦ rw (e, accept_payload) (accept_reset-reassembler r c)
    ]
accept_payload-reassembler d unspecified payload sendable c = refl

accept_pushed-reassembler :
    (d : Decoders) (kind : CursorPayloadKind) (sendable : Bool) (c : CursorClient)
    (r : CursorReassembler) (o : CursorResult (Option (List ℕ)))
    → (accept_pushed d kind sendable c r o).0.reassembler ≡ r
unfolding accept_pushed
accept_pushed-reassembler d kind sendable c r (invalid e) = refl
accept_pushed-reassembler d kind sendable c r (done none) = refl
accept_pushed-reassembler d kind sendable c r (done (some payload)) =
    accept_payload-reassembler d kind payload sendable _

take_datagram-reassembler :
    (d : Decoders) (a : ClientArrival) (m : ClientDatagram) (c : CursorClient)
    → (take_datagram d a m c).0.reassembler ≡ (completed_by a m c.reassembler).0
unfolding take_datagram completed_by accept_chunk_of
take_datagram-reassembler d a failed c = refl
take_datagram-reassembler d a garbled c = refl
take_datagram-reassembler d a (arrived msg) c = elim (Option-cases (chunk_in msg)) [
  | inl e ↦ rw (take_datagram, completed_by, e) refl
  | inr (chunk, e) ↦ elim (Option-cases (cursor_payload_kind chunk.kind)) [
    | inl k ↦ rw (take_datagram, completed_by, e, k) refl
    | inr (kind, k) ↦
        rw (take_datagram, completed_by, e, k)
          (accept_pushed-reassembler d kind a.sendable (count_datagram c)
            (push a.clock chunk c.reassembler).0 (push a.clock chunk c.reassembler).1)
  ]
]

-- The client's reassembler goes on as it would alone.
pub take_arrival-reassembler :
    (d : Decoders) (a : ClientArrival) (c : CursorClient)
    → (take_arrival d a c).0.reassembler ≡ (completed a c.reassembler).0
unfolding take_arrival
take_arrival-reassembler d a c = take_datagram-reassembler d a a.datagram c
