-- ===== src/Cursor/Receive.antt =====
-- How `CursorClient::recv` of `core/src/cursor.rs` takes datagrams until it has an item.
use fly_ruler_proto.Cursor.Client.{
  failed, CursorClient, Received, accept_frame, ClientArrival, item, deliver_frame, accept_batch,
  ClientTurn, ClientDatagram, drop_frame, failure, accept_reset, io, decode, reassembly,
  unspecified_kind, count_datagram, arrived, unknown_kind, garbled,
}
use fly_ruler_proto.Store.Query.{saturating_add}
use fly_ruler_proto.Base.Equality.{string_eq}
use fly_ruler_proto.Base.{
  [], ◌∷◌, zero, suc, if◌then◌else◌, none, some, Option, ℕ, List, Bool, ◌-◌, ◌++◌, leb, ltb,
}
use fly_ruler_proto.Pb.{request, response, server_push}
use fly_ruler_proto.Cursor.{
  done, invalid, Message, CursorReassembler, CursorChunk, push, CursorResult,
}
use fly_ruler_proto.Cursor.Payloads.{
  unspecified, frame_kind, batch_kind, reset_kind, frame, Decoders, CursorClientEvent,
  cursor_payload_kind, CursorPayloadKind,
}

-- The `match kind` on a complete payload.
unfoldable pub accept_payload :
    Decoders → CursorPayloadKind → List ℕ → Bool → CursorClient → ClientTurn
unfolding accept_frame accept_batch accept_reset
accept_payload d frame_kind payload sendable c = elim (d.decode_frame payload) [
  | none ↦ (c, some (failure decode))
  | some f ↦ accept_frame f c
]
accept_payload d batch_kind payload sendable c = elim (d.decode_batch payload) [
  | none ↦ (c, some (failure decode))
  | some b ↦ if sendable then accept_batch b c else (c, some (failure io))
]
accept_payload d reset_kind payload sendable c = elim (d.decode_reset payload) [
  | none ↦ (c, some (failure decode))
  | some r ↦ accept_reset r c
]
accept_payload d unspecified payload sendable c = (c, some (failure unspecified_kind))

abbrev pub count_failures : ℕ → CursorClient → CursorClient
count_failures n c = record c {
  stats = record c.stats { reassembly_failures = saturating_add c.stats.reassembly_failures n };
}

-- What follows on the reassembler's result; the payloads that it expired count as failures.
unfoldable pub accept_pushed :
    Decoders
    → CursorPayloadKind
    → Bool
    → CursorClient
    → CursorReassembler
    → CursorResult (Option (List ℕ))
    → ClientTurn
unfolding accept_payload
accept_pushed d kind sendable c r result =
    let expired = r.expired_payloads - c.reassembler.expired_payloads in
    let c' = count_failures expired (record c { reassembler = r }) in
    elim result [
      | invalid e ↦ (count_failures 1 c', some (failure (reassembly e)))
      | done o ↦ elim o [
        | none ↦ (c', none)
        | some payload ↦ accept_payload d kind payload sendable c'
      ]
    ]

unfoldable pub accept_chunk_of :
    Decoders → CursorPayloadKind → CursorChunk → ClientArrival → CursorClient → ClientTurn
unfolding accept_pushed
accept_chunk_of d kind chunk a c =
    let pushed = push a.clock chunk c.reassembler in
    accept_pushed d kind a.sendable c pushed.0 pushed.1

-- The chunk of a message; other messages are passed over.
abbrev pub chunk_in : Message → Option CursorChunk
chunk_in msg = elim msg.envelope [
  | none ↦ none
  | some envelope ↦ elim envelope [ request r ↦ none | response r ↦ none | server_push o ↦ o ]
]

unfoldable pub take_datagram : Decoders → ClientArrival → ClientDatagram → CursorClient → ClientTurn
unfolding accept_chunk_of
take_datagram d a failed c = (c, some (failure io))
take_datagram d a garbled c = (count_datagram c, some (failure decode))
take_datagram d a (arrived msg) c = elim (chunk_in msg) [
  | none ↦ (count_datagram c, none)
  | some chunk ↦ elim (cursor_payload_kind chunk.kind) [
    | none ↦ (count_datagram c, some (failure unknown_kind))
    | some kind ↦ accept_chunk_of d kind chunk a (count_datagram c)
  ]
]

-- One iteration of the loop in `recv`.
unfoldable pub take_arrival : Decoders → ClientArrival → CursorClient → ClientTurn
unfolding take_datagram
take_arrival d a c = take_datagram d a a.datagram c

-- The loop: the client waits when nothing more arrives.
unfoldable pub receive_loop :
    Decoders
    → List ClientArrival
    → CursorClient
    → CursorClient × Option Received × List ClientArrival
unfolding take_arrival
receive_loop d [] c = (c, none, [])
receive_loop d (a ∷ arrivals) c =
    let (c', result) = take_arrival d a c in
    elim result [ some r ↦ (c', some r, arrivals) | none ↦ receive_loop d arrivals c' ]

-- A frame that was kept is handed on first, if its events were applied by now.
unfoldable pub recv :
    Decoders
    → List ClientArrival
    → CursorClient
    → CursorClient × Option Received × List ClientArrival
unfolding receive_loop
recv d arrivals c = elim c.pending_frame [
  | none ↦ receive_loop d arrivals c
  | some f ↦
      if leb f.event_watermark c.applied_event_sequence
      then (let c' = record c { pending_frame = none } in
          if ltb c'.last_frame_sequence f.frame_sequence
          then (deliver_frame f c', some (item (frame f)), arrivals)
          else receive_loop d arrivals (drop_frame c'))
      else receive_loop d arrivals c
]

abbrev pub item_in : Option Received → List CursorClientEvent
item_in none = []
item_in (some (item e)) = e ∷ []
item_in (some (failure e)) = []

-- The items that so many calls of `recv` return.
unfoldable pub receive_calls :
    Decoders → ℕ → List ClientArrival → CursorClient → List CursorClientEvent
unfolding recv
receive_calls d zero arrivals c = []
receive_calls d (suc calls) arrivals c =
    let (c', result, rest) = recv d arrivals c in item_in result ++ receive_calls d calls rest c'
