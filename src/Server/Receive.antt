-- ===== src/Server/Receive.antt =====
-- `Server::recv_from` and the receive loop of `ServerRuntime::start` in `core/src/transport/server.rs`.
use fly_ruler_proto.Base.Equality.{string_eq, ◌==◌, Str}
use fly_ruler_proto.Base.{
  ℕ, ◌*◌, max, Bool, true, false, not, ◌&&◌, ◌||◌, Option, none, some, if◌then◌else◌, unwrap_or,
  is_some_and, map_option, and_then,
}
use fly_ruler_proto.Base.Hex.{hex_of_bytes}
use fly_ruler_proto.Base.Text.{str}
use fly_ruler_proto.Float.{F64, plus, is_finite, le}
use fly_ruler_proto.Pb.{
  ClientRole, unspecified_role, client_role, Handshake, Command, handshake, heartbeat,
  aircraft_event, cursor_subscribe, cursor_event_ack, Request, ack, ErrorCode,
  protocol_version_mismatch, invalid_state, ResponseResult, ok_result, err_result, request,
  response, server_push, Message,
}
use fly_ruler_proto.Server.{
  SocketAddr, Clock, role, SessionState, is_producer, touch_addr, set_session, subscribe_cursor,
  acknowledge_cursor_event, cleanup_expired,
}

-- "0.4.0", of `core/src/lib.rs`.
abbrev pub protocol_version : Str
protocol_version = str "0.4.0"

abbrev pub req_timestamp : Clock → Request → F64
req_timestamp clock req = if is_finite req.timestamp then req.timestamp else clock.now_secs

abbrev pub respond : Clock → Request → ResponseResult → Message
respond clock req result = record {
  envelope = some (
      response (record { id = req.id; timestamp = req_timestamp clock req; result = some result }));
}

abbrev pub make_ack_for_request : Clock → Request → Message
make_ack_for_request clock req = respond clock req (ok_result (some (ack true)))

abbrev pub make_err_for_request : Clock → Request → ErrorCode → Str → Message
make_err_for_request clock req code text =
    respond clock req (err_result (record { code = code; message = text; aircraft_id = none }))

-- The request and the command in it, if the message has both.
abbrev pub command_in : Message → Option (Request × Command)
command_in msg = and_then msg.envelope (λ envelope. elim envelope [
  | request req ↦ and_then req.command (λ c. map_option (λ kind. (req, kind)) c.kind)
  | response r ↦ none
  | server_push p ↦ none
])

-- The UUID that a handshake or a heartbeat names.
abbrev pub uuid_in : Command → Option Str
uuid_in (handshake hs) = map_option (λ u. hex_of_bytes u.bytes) hs.client_uuid
uuid_in (heartbeat hb) = map_option (λ u. hex_of_bytes u.bytes) hb.client_uuid
uuid_in (aircraft_event e) = none
uuid_in (cursor_subscribe c) = none
uuid_in (cursor_event_ack c) = none

abbrev pub is_aircraft_event : Command → Bool
is_aircraft_event (aircraft_event e) = true
is_aircraft_event (handshake h) = false
is_aircraft_event (heartbeat h) = false
is_aircraft_event (cursor_subscribe c) = false
is_aircraft_event (cursor_event_ack c) = false

-- The session state after a request, and the reply.
abbrev pub Handled : Type 0
Handled = SessionState × Option Message

-- `ClientRole::try_from(hs.role).unwrap_or(ClientRole::Unspecified)`.
abbrev pub role_of : Handshake → ClientRole
role_of hs = unwrap_or (client_role hs.role) unspecified_role

-- A handshake with the right version.
unfoldable pub accept_handshake :
    Clock → SocketAddr → Request → ClientRole → Option Str → SessionState → Handled
accept_handshake clock addr req unspecified_role uuid s = (
  s,
  some (
      make_err_for_request clock req invalid_state
        (str "handshake role must be producer or cursor_subscriber")),
)
accept_handshake clock addr req r none s = (s, none)
accept_handshake clock addr req r (some uuid) s =
    (set_session clock addr uuid r s, some (make_ack_for_request clock req))

unfoldable pub subscribe : Clock → SocketAddr → Request → F64 → SessionState → Handled
subscribe clock addr req hz s =
    if not (is_finite hz) || le hz (plus 0)
    then (
      s,
      some (
          make_err_for_request clock req invalid_state
            (str "requested cursor rate must be finite and greater than zero")),
    )
    else let (subscribed, s') = subscribe_cursor addr hz s in
      (
        s',
        some (
            if subscribed
            then make_ack_for_request clock req
            else make_err_for_request clock req invalid_state
                (str "cursor subscription requires a subscriber handshake")),
      )

-- The `match cmd` of the receive loop.
unfoldable pub handle_command : Clock → SocketAddr → Request → Command → SessionState → Handled
handle_command clock addr req (handshake hs) s =
    if hs.version == protocol_version
    then accept_handshake clock addr req (role_of hs) (uuid_in (handshake hs)) s
    else (
      s,
      some (
          make_err_for_request clock req protocol_version_mismatch
            (str "protocol version mismatch")),
    )
handle_command clock addr req (heartbeat hb) s = (s, some (make_ack_for_request clock req))
handle_command clock addr req (cursor_subscribe c) s = subscribe clock addr req c.requested_hz s
handle_command clock addr req (cursor_event_ack a) s =
    ((acknowledge_cursor_event addr a.server_epoch a.event_sequence s).1, none)
handle_command clock addr req (aircraft_event e) s = (
  s,
  if is_some_and (role addr s) is_producer
      then none
      else some (
          make_err_for_request clock req invalid_state
            (str "only producer sessions may upload aircraft events")),
)

-- A message without a command changes nothing and is not answered.
unfoldable pub handle : Clock → SocketAddr → Message → SessionState → Handled
handle clock addr msg s = elim (command_in msg) [
  | none ↦ (s, none)
  | some (req, command) ↦ handle_command clock addr req command s
]

-- Whether the handler is called with the message: `is_producer_event`.
unfoldable pub is_producer_event : SocketAddr → Message → SessionState → Bool
is_producer_event addr msg s =
    is_some_and (command_in msg) (λ c. is_aircraft_event c.1)
    && is_some_and (role addr s) is_producer

-- A datagram: of no bytes, not decodable, or a message.
pub data Datagram : Type 0 where
  no_bytes undecodable : Datagram
  carrying : Message → Datagram

-- A datagram with its sender, the instant at which the sessions were cleaned up before it came, and
-- the clock when its sender's session is touched and when it is handled.
pub record Arrival : Type 0 where
  pub addr : SocketAddr
  pub datagram : Datagram
  pub cleaned_at : ℕ
  pub touched : Clock
  pub handled : Clock

pub record ServerLoop : Type 0 where
  pub sessions : SessionState
  pub running : Bool

-- The loop after a datagram, the reply to its sender, and the message that the handler is called with.
pub record Received : Type 0 where
  pub after : ServerLoop
  pub reply : Option Message
  pub delivered : Option Message

unfoldable pub receive_message : Arrival → Message → SessionState → Received
unfolding handle is_producer_event
receive_message arrival msg s =
    let (s', reply) =
      handle arrival.handled arrival.addr msg (touch_addr arrival.touched arrival.addr s) in
    record {
      after = record { sessions = s'; running = true };
      reply = reply;
      delivered = if is_producer_event arrival.addr msg s' then some msg else none;
    }

-- The `match received`, with the sessions after the clean-up. An error of `recv_from` ends the loop,
-- also the error of a datagram that cannot be decoded.
unfoldable pub receive_datagram : Arrival → Datagram → SessionState → Received
unfolding receive_message
receive_datagram arrival no_bytes s = record {
  after = record { sessions = s; running = true };
  reply = none;
  delivered = none;
}
receive_datagram arrival undecodable s = record {
  after = record { sessions = s; running = false };
  reply = none;
  delivered = none;
}
receive_datagram arrival (carrying msg) s = receive_message arrival msg s

-- One turn of the loop, if it still runs.
unfoldable pub receive : ℕ → Arrival → ServerLoop → Received
unfolding receive_datagram
receive timeout arrival l =
    if l.running
    then receive_datagram arrival arrival.datagram
        (cleanup_expired timeout arrival.cleaned_at l.sessions)
    else record { after = l; reply = none; delivered = none }

-- `Duration::from_secs(config.heartbeat_timeout_secs.max(1))` in nanoseconds.
abbrev pub session_timeout : ℕ → ℕ
session_timeout heartbeat_timeout_secs = max heartbeat_timeout_secs 1 * 1_000_000_000
