-- ===== src/Lib.antt =====
-- A library about `fly_ruler_proto`, the protobuf and UDP protocol and data kernel for flight
-- simulations: what its core crate (`core/`) keeps of the flights and how it replays them.
--
-- Producers send aircraft commands in datagrams. The store (`core/src/store.rs`) keeps, for each
-- aircraft, the states, events and telemetry frames in the order of their source time. The playback
-- controller (`core/src/playback.rs`) is one global timeline over the store: live, or a cursor that
-- is paused or moves with the clock. Consumers read an aircraft through a snapshot of the timeline.
--
-- Base: shared names and lemmas. Base.Dict is a hash map as an association list in its iteration
--   order; Base.Hex is `uuid_to_hex` of `core/src/utils.rs`.
-- Float: binary64 values as bit patterns, with the comparisons that the program uses. Only the
--   order is defined; sums, products and durations are parameters (Playback.Arithmetic,
--   Series.Arithmetic).
-- Timeline: sorted vectors and the slice operations `partition_point`, `insert` and ranges, which
--   give `panic` where the source would.
-- Pb: the messages of `core/proto/fly_ruler.proto`.
-- Store: the data types; Store.Append has `append_state`, `append_event` and `append_telemetry`,
--   Store.Telemetry the validation of schemas and frames, Store.Ingest `append_message`, Store.Query
--   and Store.Global the queries and pages, Store.Adjacent the stepping between timestamps,
--   Store.Summary the summaries, counts and bounds, Store.Contents `snapshot_clone`, `replace_from`
--   and `clear`. Store.Valid, Store.Reads, Store.Lifecycle, Store.Frames, Store.Pages and the
--   children of Store.Telemetry, Store.Summary, Store.Adjacent and Store.Global hold the proofs.
-- Playback: `PlaybackController`, each method a function from the store, its arguments, the readings
--   of the clock and the state to a reply, which is a result, an error or a panic of `f64::clamp`.
--   Playback.Calls has the calls as data; Update, Answers, Bounded, Moves, History and Shown hold
--   the proofs.
-- Server: the sessions of `core/src/transport/server.rs`. Server.Receive is one turn of the receive
--   loop, from a datagram (empty, undecodable or a message) to the reply and the message that the
--   handler is called with; Server.Turns lets the turns interleave with the publisher's handle.
--   Registered, Operations, Consistent, Justified, Authority and Acknowledged hold the proofs.
-- Gate: `core/src/management/gate.rs` as threads that take one atomic or lock operation at a time (a
--   refused ingestion ends in one step); Exclusion and Progress hold the proofs.
-- Cursor: the chunks of `core/src/cursor.rs` and their reassembly; Cursor.Checksum is its CRC-32.
--   The number of chunks bounds the recursion that cuts a payload; Pieces shows that it covers the
--   payload. Cursor.Payloads has the payloads. Cursor.Client is what `CursorClient` does with each,
--   and Cursor.Receive its `recv`, which takes arrivals, each of a datagram or an error of the socket,
--   and stops when they run out; Cursor.View says in which order items may come. Cursor.Events
--   assembles frames and events, Cursor.Subscriber has what the publisher keeps of a subscriber and
--   the encoders, the clock's readings and `Duration::from_secs_f64` as parameters, Cursor.Publish
--   the queueing of pages and Cursor.Send the turn for one subscriber at a tick, which Cursor.Turns
--   repeats from tick to tick. Pieces, RoundTrip, Stream, Complete, Delivered, Chain, Paged, Queued,
--   Numbered, Waiting, Removed and Delta hold the proofs.
-- Series: `core/src/management/series.rs`. Series.Fields reads the fields of a state and of a frame,
--   Series.Catalog is `catalog`, Series.Sample `stats` and `lttb`, and Series.Query `query`; a panic of
--   an index or an `expect` is a result. Series.Arithmetic has the floating-point operations as a
--   parameter. Series.Answer says what one selection gives alone; Collected, Grouped, Written,
--   GroupAnswer, Answered and Requests show that the query gives this. Sampled is about `lttb`;
--   Selectable, Described, SelectorSet, Listed and Catalogued are about the catalog.
--
-- The store's maps are read under their locks, so an operation is one step. Text is a list of code
-- points, a `u64` keeps its wrap-around, an `Instant` is a number of nanoseconds. All loops are
-- structural, so nothing runs on fuel. Log output is left out, as are the error texts of the store,
-- which are constructors with the values that the text shows.
--
-- Not modelled: saving and loading (Parquet and JSON), the UDP client, the loop of the cursor
-- publisher over all subscribers, the connection and the heartbeat of the cursor client, the kernel
-- runtime, the HTTP and WebSocket routes, the process configuration, attitude arithmetic, the bindings
-- and the web console.
pub mod Base
pub mod Float
pub mod Timeline
pub mod Pb
pub mod Store
pub mod Playback
pub mod Server
pub mod Gate
pub mod Cursor
pub mod Series
