-- ===== src/Cursor/Examples.antt =====
-- The theorems on `core/src/cursor.rs` at a concrete payload.
use fly_ruler_proto.Cursor.Numbered.{IsNumbered, completed_by}
use fly_ruler_proto.Base.Dict.{remove, insert, lookup}
use fly_ruler_proto.Float.{plus}
use fly_ruler_proto.Cursor.View.{IsOrdered, blank_view}
use fly_ruler_proto.Cursor.Delivered.{receive_calls-IsOrdered}
use fly_ruler_proto.Cursor.{
  key_eq, push, retain, lookup, insert, remove, done, make_chunk, encode_cursor_chunks,
}
use fly_ruler_proto.Cursor.Payloads.{event_batch, frame, CursorEventBatch, CursorFrame, Decoders}
use fly_ruler_proto.Cursor.Client.{arrived, ClientArrival, new_client}
use fly_ruler_proto.Cursor.Receive.{receive_calls}
use fly_ruler_proto.Base.{
  ℕ, ◌≡◌, refl, ◌⊎◌, inl, none, some, List, [], ◌∷◌, All, get_last?, map, Option, arith, true,
  length,
}
use fly_ruler_proto.Base.Int.{pos}
use fly_ruler_proto.Pb.{CursorChunk, Message}
use fly_ruler_proto.Cursor.Checksum.{checksum32}
use fly_ruler_proto.Cursor.Complete.{encode_cursor_chunks-push_in_order}
use fly_ruler_proto.Cursor.Stream.{
  new_reassembler, chunk_message, push_all, encode_cursor_chunks-push_all,
}

-- The check value of CRC-32, that of "123456789".
check_value :
    checksum32 (b'1' ∷ b'2' ∷ b'3' ∷ b'4' ∷ b'5' ∷ b'6' ∷ b'7' ∷ b'8' ∷ b'9' ∷ []) ≡ 0xcbf4_3926
unfolding checksum32
check_value = refl

abbrev payload_bytes : List ℕ
payload_bytes = 8 ∷ 7 ∷ 18 ∷ []

abbrev only_chunk : CursorChunk
only_chunk = make_chunk (1 ∷ []) (pos 1) 7 payload_bytes 0 payload_bytes

abbrev messages : List Message
messages = chunk_message only_chunk ∷ []

encoded : encode_cursor_chunks (1 ∷ []) (pos 1) 7 payload_bytes ≡ done messages
unfolding encode_cursor_chunks
encoded = refl

-- The chunk arrives twice.
abbrev arrivals : List ((ℕ × ℕ) × CursorChunk)
arrivals = ((3, 4), only_chunk) ∷ ((9, 9), only_chunk) ∷ []

encode_cursor_chunks-push_all_example :
    All (λ o. (o ≡ done none) ⊎ (o ≡ done (some payload_bytes))) (push_all arrivals new_reassembler)
encode_cursor_chunks-push_all_example =
    encode_cursor_chunks-push_all (1 ∷ []) (pos 1) 7 payload_bytes messages arrivals encoded
      (inl refl, (inl refl, tt))

encode_cursor_chunks-push_in_order_example :
    get_last? (push_all (map (λ c. ((5, 5), c)) (only_chunk ∷ [])) new_reassembler)
    ≡ some (done (some payload_bytes))
encode_cursor_chunks-push_in_order_example =
    encode_cursor_chunks-push_in_order (1 ∷ []) (pos 1) 7 payload_bytes (only_chunk ∷ []) 5 encoded

-- A batch numbered by its first byte and a frame numbered by its length, each with the epoch of the
-- chunks.
abbrev numbered_batch : ℕ → CursorEventBatch
numbered_batch number = record {
  server_epoch = some (record { bytes = 5 ∷ [] });
  event_sequence = number;
  revision = 3;
  baseline = true;
  baseline_complete = true;
  events = [];
}

abbrev frame_of : ℕ → CursorFrame
frame_of number = record {
  server_epoch = some (record { bytes = 5 ∷ [] });
  frame_sequence = number;
  mode = pos 1;
  cursor = none;
  lower_bound = none;
  upper_bound = none;
  speed = plus 0;
  revision = 3;
  event_watermark = 1;
  generated_at = plus 0;
  aircraft = [];
}

abbrev first_byte : List ℕ → Option CursorEventBatch
first_byte [] = none
first_byte (b ∷ payload) = some (numbered_batch b)

abbrev decoders : Decoders
decoders = record {
  decode_frame = λ payload. some (frame_of (length payload));
  decode_batch = first_byte;
  decode_reset = λ payload. none;
}

abbrev arrival_of : ℕ → ℕ → List ℕ → ClientArrival
arrival_of kind sequence payload = record {
  clock = (0, 0);
  datagram = arrived (chunk_message (make_chunk (5 ∷ []) (pos kind) sequence payload 0 payload));
  sendable = true;
}

-- Two frames before the batch that they build on, the batch twice, and a frame after it.
abbrev stream_arrivals : List ClientArrival
stream_arrivals =
    arrival_of 1 1 (9 ∷ [])
    ∷ arrival_of 1 2 (9 ∷ 9 ∷ [])
    ∷ arrival_of 2 1 (1 ∷ [])
    ∷ arrival_of 2 1 (1 ∷ [])
    ∷ arrival_of 1 2 (9 ∷ 9 ∷ [])
    ∷ []

-- The batch is handed on once, and then a frame.
calls_run :
    receive_calls decoders 3 stream_arrivals new_client
    ≡ event_batch (numbered_batch 1) ∷ frame (frame_of 2) ∷ []
unfolding receive_calls push retain checksum32 lookup insert remove
calls_run = refl

-- The one batch has the number 1.
stream_arrivals-IsNumbered : IsNumbered decoders stream_arrivals new_client.reassembler
unfolding completed_by push retain checksum32 lookup insert remove
stream_arrivals-IsNumbered = (tt, (tt, (omega arith, (omega arith, (tt, tt)))))

receive_calls-IsOrdered_example :
    IsOrdered blank_view (receive_calls decoders 3 stream_arrivals new_client)
receive_calls-IsOrdered_example =
    receive_calls-IsOrdered decoders 3 stream_arrivals stream_arrivals-IsNumbered
