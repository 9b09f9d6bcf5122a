-- ===== src/Server/Examples.antt =====
-- The theorems on `core/src/transport/server.rs` at concrete histories.
use fly_ruler_proto.Base.Equality.{string_eq}
use fly_ruler_proto.Base.{
  ℕ, ◌+◌, ◌%◌, ◌^◌, ◌≡◌, refl, true, false, Option, none, some, List, [], ◌∷◌, Any,
}
use fly_ruler_proto.Base.Dict.{lookup, insert, remove}
use fly_ruler_proto.Base.Int.{pos}
use fly_ruler_proto.Base.Hex.{hex_of_bytes}
use fly_ruler_proto.Float.{F64, plus, is_finite}
use fly_ruler_proto.Pb.{
  Uuid, producer, cursor_subscriber, Command, handshake, aircraft_event, request, Message,
}
use fly_ruler_proto.Server.{
  SocketAddr, Clock, Session, role, SessionState, change_session, touch_addr, default_hz,
  new_session, set_session, acknowledge_cursor_event, expired_sessions, remove_expired,
  cleanup_expired,
}
use fly_ruler_proto.Server.Receive.{
  protocol_version, accept_handshake, handle_command, handle, is_producer_event, carrying, Arrival,
  receive_message, receive_datagram, receive,
}
use fly_ruler_proto.Server.Turns.{Turn, arrives, take_turn, run_turns}
use fly_ruler_proto.Server.Consistent.{run_turns-one_session}
use fly_ruler_proto.Server.Justified.{Introduces}
use fly_ruler_proto.Server.Authority.{run_turns-delivered}
use fly_ruler_proto.Server.Acknowledged.{acknowledge_cursor_event-advances}

abbrev one : F64
one = plus 0x3ff0_0000_0000_0000

-- 127.0.0.1:9000.
abbrev sender : SocketAddr
sender = 127 ∷ 0 ∷ 0 ∷ 1 ∷ 9000 ∷ []

abbrev at_time : ℕ → Clock
at_time n = record { now_secs = one; instant = n }

abbrev request_with : Command → Message
request_with c = record {
  envelope =
      some (
        request (record { id = none; timestamp = one; command = some (record { kind = some c }) }));
}

abbrev arrival_of : ℕ → Command → Arrival
arrival_of n c = record {
  addr = sender;
  datagram = carrying (request_with c);
  cleaned_at = n;
  touched = at_time n;
  handled = at_time n;
}

abbrev hello : Command
hello = handshake (record {
  version = protocol_version;
  client_uuid = some (record { bytes = 0xab ∷ [] });
  role = pos 1;
})

abbrev upload : Command
upload = aircraft_event (record { aircraft_id = none; info = none })

abbrev greeted : List Turn
greeted = arrives (arrival_of 5 hello) ∷ []

upload-delivered :
    (receive 1000 (arrival_of 9 upload) (run_turns 1000 greeted)).delivered
    ≡ some (request_with upload)
unfolding receive receive_datagram receive_message handle handle_command accept_handshake
    set_session cleanup_expired expired_sessions remove_expired touch_addr change_session
    is_producer_event role run_turns take_turn lookup insert remove is_finite hex_of_bytes
upload-delivered = refl

run_turns-delivered_example :
    ((arrival_of 9 upload).datagram ≡ carrying (request_with upload))
    × ((receive 1000 (arrival_of 9 upload) (run_turns 1000 greeted)).reply ≡ none)
    × Any (Introduces sender) greeted
run_turns-delivered_example =
    run_turns-delivered 1000 greeted (arrival_of 9 upload) (request_with upload) upload-delivered

abbrev producer_session : Session
producer_session = new_session (at_time 5) sender (b'a' ∷ b'b' ∷ []) producer

greeted-session : lookup sender (run_turns 1000 greeted).sessions.by_addr ≡ some producer_session
unfolding receive receive_datagram receive_message handle handle_command accept_handshake
    set_session cleanup_expired expired_sessions remove_expired touch_addr change_session
    is_producer_event role run_turns take_turn lookup insert remove is_finite hex_of_bytes
greeted-session = refl

run_turns-one_session_example : sender ≡ sender
run_turns-one_session_example =
    run_turns-one_session 1000 greeted sender sender producer_session producer_session
      greeted-session greeted-session refl

abbrev subscriber : Session
subscriber = record {
  addr = sender;
  client_uuid_hex = b'c' ∷ [];
  last_seen_secs = one;
  role = cursor_subscriber;
  cursor_subscribed = true;
  cursor_requested_hz = default_hz;
  cursor_event_ack = 4;
  cursor_epoch = 7 ∷ [];
  last_seen_at = 0;
}

abbrev subscribed : SessionState
subscribed = record {
  by_addr = (sender, subscriber) ∷ [];
  by_client_uuid = (b'c' ∷ [], sender) ∷ [];
}

abbrev acknowledged : SessionState
acknowledged = record subscribed {
  by_addr = (sender, record subscriber { cursor_event_ack = 5 }) ∷ [];
}

abbrev epoch : Option Uuid
epoch = some (record { bytes = 7 ∷ [] })

fifth-acknowledged : acknowledge_cursor_event sender epoch 5 subscribed ≡ (true, acknowledged)
unfolding acknowledge_cursor_event change_session lookup insert
fifth-acknowledged = refl

acknowledge_cursor_event-advances_example :
    (v : Session) × (lookup sender subscribed.by_addr ≡ some v)
    × (5 ≡ (v.cursor_event_ack + 1) % 2 ^ 64)
    × (lookup sender acknowledged.by_addr ≡ some (record v { cursor_event_ack = 5 }))
    × (acknowledge_cursor_event sender epoch 5 acknowledged ≡ (false, acknowledged))
acknowledge_cursor_event-advances_example =
    acknowledge_cursor_event-advances sender epoch 5 subscribed acknowledged fifth-acknowledged
