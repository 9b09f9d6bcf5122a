-- ===== src/Cursor.antt =====
-- `core/src/cursor.rs`: the payloads of the cursor stream in chunks, and their reassembly.
pub mod Payloads
pub mod Client
pub mod Receive
pub mod View
pub mod Numbered
pub mod Delivered
pub mod Events
pub mod Subscriber
pub mod Publish
pub mod Send
pub mod Chain
pub mod Paged
pub mod Queued
pub mod Delta
pub mod Turns
pub mod Waiting
pub mod Removed
pub mod Checksum
pub mod Pieces
pub mod RoundTrip
pub mod Stream
pub mod Complete
mod Examples
mod TurnExamples
use fly_ruler_proto.Base.Equality.{string_eq, Eq}
use fly_ruler_proto.Base.{
  ℕ, zero, suc, ◌+◌, ◌-◌, ◌*◌, ◌/◌, ◌%◌, ◌^◌, min, ◌≡◌, ◌↔◌, Bool, true, false, not, ◌&&◌, ◌||◌,
  Option, none, some, List, [], ◌∷◌, ◌++◌, arith, ltb, leb, eqb, if◌then◌else◌, unwrap_or, length,
  take, drop,
}
use fly_ruler_proto.Base.Dict.{lookup, insert, remove}
use fly_ruler_proto.Base.Int.{ℤ, pos, negsuc}
use fly_ruler_proto.Pb.{CursorChunk, server_push, Message}
use fly_ruler_proto.Cursor.Checksum.{checksum32}

abbrev pub cursor_chunk_bytes : ℕ
cursor_chunk_bytes = 1024

abbrev pub max_cursor_payload_bytes : ℕ
max_cursor_payload_bytes = 4 * 1024 * 1024

-- 500 milliseconds.
abbrev pub cursor_reassembly_timeout : ℕ
cursor_reassembly_timeout = 500_000_000

abbrev pub div_ceil : ℕ → ℕ → ℕ
div_ceil n d = (n + d - 1) / d

-- The reasons of `TransportError::InvalidMessage` here.
pub data CursorError : Type 0 where
  payload_size chunk_bounds metadata_changed checksum_mismatch : CursorError

pub data CursorResult (A : Type 0) : Type 0 where
  done : A → CursorResult A
  invalid : CursorError → CursorResult A

abbrev pub int_eqb : ℤ → ℤ → Bool
int_eqb (pos a) (pos b) = eqb a b
int_eqb (negsuc a) (negsuc b) = eqb a b
int_eqb (pos a) (negsuc b) = false
int_eqb (negsuc a) (pos b) = false

abbrev pub key_eqb : ℤ × ℕ → ℤ × ℕ → Bool
key_eqb (k, n) (l, m) = int_eqb k l && eqb n m

pub key_eqb_iff : (a b : ℤ × ℕ) → (key_eqb a b ≡ true) ↔ (a ≡ b)
key_eqb_iff (pos k, n) (pos l, m) = ground arith
key_eqb_iff (negsuc k, n) (negsuc l, m) = ground arith
key_eqb_iff (pos k, n) (negsuc l, m) = ground arith
key_eqb_iff (negsuc k, n) (pos l, m) = ground arith

-- A payload is known by its kind and its sequence number.
instance abbrev pub key_eq : Eq (ℤ × ℕ)
key_eq = record { test = key_eqb; decides = key_eqb_iff }

pub record PartialPayload : Type 0 where
  pub created_at : ℕ
  pub total_size : ℕ
  pub checksum : ℕ
  pub chunks : List (Option (List ℕ))

pub record CursorReassembler : Type 0 where
  pub partial : List ((ℤ × ℕ) × PartialPayload)
  pub expired_payloads : ℕ

-- `payload.chunks(CURSOR_CHUNK_BYTES)`, for so many chunks.
abbrev pub pieces : ℕ → List ℕ → List (List ℕ)
pieces zero payload = []
pieces (suc n) payload =
    take cursor_chunk_bytes payload ∷ pieces n (drop cursor_chunk_bytes payload)

abbrev pub chunk_count : List ℕ → ℕ
chunk_count payload = div_ceil (length payload) cursor_chunk_bytes

abbrev pub payload_pieces : List ℕ → List (List ℕ)
payload_pieces payload = pieces (chunk_count payload) payload

-- The chunk with an index of a payload.
abbrev pub make_chunk : List ℕ → ℤ → ℕ → List ℕ → ℕ → List ℕ → CursorChunk
make_chunk epoch kind sequence payload index bytes = record {
  server_epoch = some (record { bytes = epoch });
  kind = kind;
  sequence = sequence;
  chunk_index = index % 2 ^ 32;
  chunk_count = chunk_count payload % 2 ^ 32;
  total_size = length payload % 2 ^ 32;
  checksum = checksum32 payload;
  payload = bytes;
}

abbrev pub number_chunks : List ℕ → ℤ → ℕ → List ℕ → ℕ → List (List ℕ) → List Message
number_chunks epoch kind sequence payload index [] = []
number_chunks epoch kind sequence payload index (bytes ∷ rest) =
    record {
      envelope = some (server_push (some (make_chunk epoch kind sequence payload index bytes)));
    }
    ∷ number_chunks epoch kind sequence payload (index + 1) rest

-- The payload is the encoded value.
unfoldable pub encode_cursor_chunks : List ℕ → ℤ → ℕ → List ℕ → CursorResult (List Message)
encode_cursor_chunks epoch kind sequence payload =
    if eqb (length payload) 0 || ltb max_cursor_payload_bytes (length payload)
    then invalid payload_size
    else done (number_chunks epoch kind sequence payload 0 (payload_pieces payload))

abbrev pub none_slots : ℕ → List (Option (List ℕ))
none_slots zero = []
none_slots (suc n) = none ∷ none_slots n

abbrev pub set_slot : ℕ → List ℕ → List (Option (List ℕ)) → List (Option (List ℕ))
set_slot i bytes [] = []
set_slot zero bytes (slot ∷ slots) = some bytes ∷ slots
set_slot (suc i) bytes (slot ∷ slots) = slot ∷ set_slot i bytes slots

-- `chunks.iter().any(Option::is_none)`.
abbrev pub any_missing : List (Option (List ℕ)) → Bool
any_missing [] = false
any_missing (none ∷ slots) = true
any_missing (some bytes ∷ slots) = any_missing slots

abbrev pub join : List (Option (List ℕ)) → List ℕ
join [] = []
join (slot ∷ slots) = unwrap_or slot [] ++ join slots

-- `retain(|_, value| value.created_at.elapsed() <= CURSOR_REASSEMBLY_TIMEOUT)`.
unfoldable pub retain : ℕ → List ((ℤ × ℕ) × PartialPayload) → List ((ℤ × ℕ) × PartialPayload)
retain now [] = []
retain now ((key, value) ∷ m) =
    let rest = retain now m in
    if leb (now - value.created_at) cursor_reassembly_timeout then (key, value) ∷ rest else rest

abbrev pub bad_bounds : CursorChunk → Bool
bad_bounds chunk =
    eqb chunk.total_size 0
    || ltb max_cursor_payload_bytes chunk.total_size
    || eqb chunk.chunk_count 0
    || ltb (div_ceil max_cursor_payload_bytes cursor_chunk_bytes) chunk.chunk_count
    || leb chunk.chunk_count chunk.chunk_index

abbrev pub key_of : CursorChunk → ℤ × ℕ
key_of chunk = (chunk.kind, chunk.sequence)

abbrev pub new_partial : ℕ → CursorChunk → PartialPayload
new_partial now chunk = record {
  created_at = now;
  total_size = chunk.total_size;
  checksum = chunk.checksum;
  chunks = none_slots chunk.chunk_count;
}

abbrev pub metadata_differs : CursorChunk → PartialPayload → Bool
metadata_differs chunk p =
    not (eqb p.total_size chunk.total_size)
    || not (eqb p.checksum chunk.checksum)
    || not (eqb (length p.chunks) chunk.chunk_count)

-- The payload once no chunk is missing.
unfoldable pub assemble : CursorChunk → List (Option (List ℕ)) → CursorResult (Option (List ℕ))
assemble chunk slots =
    if not (eqb (length (join slots)) chunk.total_size)
      || not (eqb (checksum32 (join slots)) chunk.checksum)
    then invalid checksum_mismatch
    else done (some (join slots))

-- The chunk is put into its payload, which is among the partial ones or is new.
unfoldable pub accept_chunk :
    CursorChunk
    → PartialPayload
    → CursorReassembler
    → CursorReassembler × CursorResult (Option (List ℕ))
unfolding assemble
accept_chunk chunk p r =
    if metadata_differs chunk p
    then (record r { partial = remove (key_of chunk) r.partial }, invalid metadata_changed)
    else let slots = set_slot chunk.chunk_index chunk.payload p.chunks in
      if any_missing slots
      then (
        record r { partial = insert (key_of chunk) (record p { chunks = slots }) r.partial },
        done none,
      )
      else (record r { partial = remove (key_of chunk) r.partial }, assemble chunk slots)

-- `CursorReassembler::push`. The clock is read for the expiry and, if the payload is new, for its age.
unfoldable pub push :
    ℕ × ℕ → CursorChunk → CursorReassembler → CursorReassembler × CursorResult (Option (List ℕ))
unfolding accept_chunk retain
push (expiry, now) chunk r =
    let kept = retain expiry r.partial in
    let r' : CursorReassembler = record {
      partial = kept;
      expired_payloads = min (r.expired_payloads + (length r.partial - length kept)) (2 ^ 64 - 1);
    } in
    if bad_bounds chunk
    then (r', invalid chunk_bounds)
    else accept_chunk chunk (unwrap_or (lookup (key_of chunk) kept) (new_partial now chunk)) r'
