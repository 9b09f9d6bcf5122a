-- ===== src/Cursor/Client.antt =====
-- `CursorClient` of `core/src/cursor.rs`: the receive loop that hands frames, event batches and resets
-- on. The socket gives what arrives; a request that it sends is an acknowledgement or a failure.
use fly_ruler_proto.Store.Query.{saturating_add}
use fly_ruler_proto.Base.Equality.{◌==◌, string_eq}
use fly_ruler_proto.Base.{
  [], if◌then◌else◌, none, some, Option, ℕ, List, Bool, false, eqb, ◌&&◌, leb, not, ltb, is_none_or,
}
use fly_ruler_proto.Pb.{Uuid}
use fly_ruler_proto.Cursor.{Message, CursorReassembler, CursorError}
use fly_ruler_proto.Cursor.Payloads.{
  frame, event_batch, reset, CursorReset, CursorFrame, CursorEventBatch, CursorClientEvent,
}

pub record CursorClientStats : Type 0 where
  pub datagrams_received : ℕ
  pub frames_received : ℕ
  pub frames_dropped : ℕ
  pub reassembly_failures : ℕ
  pub event_batches_received : ℕ
  pub event_retransmits : ℕ

pub record CursorClient : Type 0 where
  pub reassembler : CursorReassembler
  pub stream_epoch : List ℕ
  pub applied_event_sequence : ℕ
  pub baseline_revision : Option ℕ
  pub pending_frame : Option CursorFrame
  pub last_frame_sequence : ℕ
  pub stats : CursorClientStats

-- What `socket.recv` and the decoder give: an error of the socket, bytes that are no message, or a
-- message; with the clock's readings in `push`, and whether the socket then sends a request.
pub data ClientDatagram : Type 0 where
  failed garbled : ClientDatagram
  arrived : Message → ClientDatagram

pub record ClientArrival : Type 0 where
  pub clock : ℕ × ℕ
  pub datagram : ClientDatagram
  pub sendable : Bool

pub data ClientError : Type 0 where
  io decode unknown_kind unspecified_kind : ClientError
  reassembly : CursorError → ClientError

-- What `recv` returns.
pub data Received : Type 0 where
  item : CursorClientEvent → Received
  failure : ClientError → Received

-- An iteration's client, and its result unless it continues.
abbrev pub ClientTurn : Type 0
ClientTurn = CursorClient × Option Received

abbrev pub increment : ℕ → ℕ
increment n = saturating_add n 1

abbrev pub count_datagram : CursorClient → CursorClient
count_datagram c = record c {
  stats = record c.stats { datagrams_received = increment c.stats.datagrams_received };
}

abbrev pub drop_frame : CursorClient → CursorClient
drop_frame c = record c {
  stats = record c.stats { frames_dropped = increment c.stats.frames_dropped };
}

abbrev pub deliver_frame : CursorFrame → CursorClient → CursorClient
deliver_frame f c = record c {
  last_frame_sequence = f.frame_sequence;
  stats = record c.stats { frames_received = increment c.stats.frames_received };
}

-- A frame that is newer is handed on, or kept until the events that it builds on were applied.
unfoldable pub accept_frame : CursorFrame → CursorClient → ClientTurn
accept_frame f c =
    if leb f.frame_sequence c.last_frame_sequence
    then (drop_frame c, none)
    else if leb f.event_watermark c.applied_event_sequence
    then (deliver_frame f c, some (item (frame f)))
    else if is_none_or c.pending_frame (λ current. ltb current.frame_sequence f.frame_sequence)
    then (record c { pending_frame = some f }, none)
    else (c, none)

abbrev pub epoch_of : Option Uuid → List ℕ
epoch_of none = []
epoch_of (some u) = u.bytes

-- A batch of another epoch starts the stream again.
unfoldable pub enter_epoch : CursorEventBatch → CursorClient → CursorClient
enter_epoch b c = if c.stream_epoch == epoch_of b.server_epoch then c else record c {
  stream_epoch = epoch_of b.server_epoch;
  applied_event_sequence = 0;
  baseline_revision = none;
  pending_frame = none;
  last_frame_sequence = 0;
}

abbrev pub is_revision : Option ℕ → ℕ → Bool
is_revision none r = false
is_revision (some q) r = eqb q r

-- The first batch of another revision starts its events again.
unfoldable pub enter_revision : CursorEventBatch → CursorClient → CursorClient
enter_revision b c =
    if b.baseline && not (is_revision c.baseline_revision b.revision)
    then record c {
      applied_event_sequence = 0;
      baseline_revision = some b.revision;
      pending_frame = none;
    }
    else c

-- After the acknowledgement was sent.
unfoldable pub accept_batch : CursorEventBatch → CursorClient → ClientTurn
unfolding enter_epoch enter_revision
accept_batch b c =
    let c' = enter_revision b (enter_epoch b c) in
    if leb b.event_sequence c'.applied_event_sequence
    then (
      record c' {
        stats = record c'.stats { event_retransmits = increment c'.stats.event_retransmits };
      },
      none,
    )
    else (
      record c' {
        applied_event_sequence = b.event_sequence;
        stats = record c'.stats {
          event_batches_received = increment c'.stats.event_batches_received;
        };
      },
      some (item (event_batch b)),
    )

unfoldable pub accept_reset : CursorReset → CursorClient → ClientTurn
accept_reset r c =
    if c.stream_epoch == epoch_of r.server_epoch && is_revision c.baseline_revision r.revision
    then (c, none)
    else (
      record c {
        stream_epoch = epoch_of r.server_epoch;
        applied_event_sequence = 0;
        baseline_revision = some r.revision;
        pending_frame = none;
        last_frame_sequence = 0;
      },
      some (item (reset r)),
    )

-- The client after `connect`.
abbrev pub new_client : CursorClient
new_client = record {
  reassembler = record { partial = []; expired_payloads = 0 };
  stream_epoch = [];
  applied_event_sequence = 0;
  baseline_revision = none;
  pending_frame = none;
  last_frame_sequence = 0;
  stats = record {
    datagrams_received = 0;
    frames_received = 0;
    frames_dropped = 0;
    reassembly_failures = 0;
    event_batches_received = 0;
    event_retransmits = 0;
  };
}
