-- ===== src/Server/Consistent.antt =====
-- Every turn of the server keeps the two maps of the sessions in agreement.
use fly_ruler_proto.Base.Equality.{◌==◌, string_eq, Str}
use fly_ruler_proto.Server.Receive.{
  no_bytes, undecodable, carrying, protocol_version, command_in, uuid_in, role_of, accept_handshake,
  subscribe, handle_command, handle, Datagram, Arrival, ServerLoop, receive_datagram, receive,
}
use fly_ruler_proto.Base.{
  ℕ, ◌≡◌, inl, inr, not, ◌||◌, Option, none, some, List, [], ◌∷◌, Bool-cases, Option-cases,
}
use fly_ruler_proto.Base.Dict.{lookup}
use fly_ruler_proto.Float.{F64, plus, is_finite, le}
use fly_ruler_proto.Pb.{
  ClientRole, unspecified_role, producer, cursor_subscriber, Command, handshake, heartbeat,
  aircraft_event, cursor_subscribe, cursor_event_ack, Request, Message,
}
use fly_ruler_proto.Server.{SocketAddr, Clock, Session, SessionState}
use fly_ruler_proto.Server.Turns.{Turn, arrives, removes, sets_epoch, take_turn, run_turns}
use fly_ruler_proto.Server.Registered.{IsConsistent, lookup-IsRegistered}
use fly_ruler_proto.Server.Operations.{
  touch_addr-IsConsistent, set_session-IsConsistent, subscribe_cursor-IsConsistent,
  acknowledge_cursor_event-IsConsistent, set_cursor_epoch-IsConsistent, remove_by_addr-IsConsistent,
  cleanup_expired-IsConsistent,
}

accept_handshake-IsConsistent :
    (clock : Clock) (a : SocketAddr) (req : Request) (r : ClientRole) (u : Option Str)
    (s : SessionState)
    → IsConsistent s
    → IsConsistent (accept_handshake clock a req r u s).0
unfolding accept_handshake
accept_handshake-IsConsistent clock a req unspecified_role u s h = h
accept_handshake-IsConsistent clock a req producer none s h = h
accept_handshake-IsConsistent clock a req cursor_subscriber none s h = h
accept_handshake-IsConsistent clock a req producer (some u) s h =
    set_session-IsConsistent clock a u producer s h
accept_handshake-IsConsistent clock a req cursor_subscriber (some u) s h =
    set_session-IsConsistent clock a u cursor_subscriber s h

subscribe-IsConsistent :
    (clock : Clock) (a : SocketAddr) (req : Request) (hz : F64) (s : SessionState)
    → IsConsistent s
    → IsConsistent (subscribe clock a req hz s).0
unfolding subscribe
subscribe-IsConsistent clock a req hz s h =
    elim (Bool-cases (not (is_finite hz) || le hz (plus 0))) [
      | inl e ↦ rw e h
      | inr e ↦ rw e (subscribe_cursor-IsConsistent a hz s h)
    ]

handle_command-IsConsistent :
    (clock : Clock) (a : SocketAddr) (req : Request) (c : Command) (s : SessionState)
    → IsConsistent s
    → IsConsistent (handle_command clock a req c s).0
unfolding handle_command
handle_command-IsConsistent clock a req (handshake hs) s h =
    elim (Bool-cases (hs.version == protocol_version)) [
      | inl e ↦
          rw e (accept_handshake-IsConsistent clock a req (role_of hs) (uuid_in (handshake hs)) s h)
      | inr e ↦ rw e h
    ]
handle_command-IsConsistent clock a req (heartbeat hb) s h = h
handle_command-IsConsistent clock a req (aircraft_event e) s h = h
handle_command-IsConsistent clock a req (cursor_subscribe c) s h =
    subscribe-IsConsistent clock a req c.requested_hz s h
handle_command-IsConsistent clock a req (cursor_event_ack c) s h =
    acknowledge_cursor_event-IsConsistent a c.server_epoch c.event_sequence s h

handle-IsConsistent :
    (clock : Clock) (a : SocketAddr) (msg : Message) (s : SessionState)
    → IsConsistent s
    → IsConsistent (handle clock a msg s).0
unfolding handle
handle-IsConsistent clock a msg s h = elim (Option-cases (command_in msg)) [
  | inl e ↦ rw (e, handle) h
  | inr ((req, c), e) ↦ rw (e, handle) (handle_command-IsConsistent clock a req c s h)
]

receive-IsConsistent :
    (timeout : ℕ) (arrival : Arrival) (l : ServerLoop)
    → IsConsistent l.sessions
    → IsConsistent (receive timeout arrival l).after.sessions
unfolding receive
receive-IsConsistent timeout arrival l h =
    let cleaned = cleanup_expired-IsConsistent timeout arrival.cleaned_at l.sessions h in
    elim (Bool-cases l.running) [
      | inr e ↦ rw e h
      | inl e ↦ rw e (received arrival.datagram _ cleaned)
    ]
  where
    received :
        (datagram : Datagram) (s : SessionState)
        → IsConsistent s
        → IsConsistent (receive_datagram arrival datagram s).after.sessions
    received no_bytes s k = k
    received undecodable s k = k
    received (carrying msg) s k =
        handle-IsConsistent arrival.handled arrival.addr msg _
          (touch_addr-IsConsistent arrival.touched arrival.addr s k)

take_turn-IsConsistent :
    (timeout : ℕ) (turn : Turn) (l : ServerLoop)
    → IsConsistent l.sessions
    → IsConsistent (take_turn timeout turn l).sessions
unfolding take_turn
take_turn-IsConsistent timeout (arrives arrival) l h = receive-IsConsistent timeout arrival l h
take_turn-IsConsistent timeout (removes a) l h = remove_by_addr-IsConsistent a l.sessions h
take_turn-IsConsistent timeout (sets_epoch a epoch) l h =
    set_cursor_epoch-IsConsistent a epoch l.sessions h

pub run_turns-IsConsistent :
    (timeout : ℕ) (turns : List Turn) → IsConsistent (run_turns timeout turns).sessions
unfolding run_turns
run_turns-IsConsistent timeout [] = tt
run_turns-IsConsistent timeout (turn ∷ earlier) =
    take_turn-IsConsistent timeout turn _ (run_turns-IsConsistent timeout earlier)

-- After any turns of a new server, in which datagrams of any content arrive, sessions are removed
-- and stream epochs set, two sessions with the same client UUID stand at the same address.
pub run_turns-one_session :
    (timeout : ℕ) (turns : List Turn) (a b : SocketAddr) (v w : Session)
    → lookup a (run_turns timeout turns).sessions.by_addr ≡ some v
    → lookup b (run_turns timeout turns).sessions.by_addr ≡ some w
    → v.client_uuid_hex ≡ w.client_uuid_hex
    → a ≡ b
run_turns-one_session timeout turns a b v w e f same =
    let h = run_turns-IsConsistent timeout turns in
    let s = (run_turns timeout turns).sessions in
    let here = lookup-IsRegistered s.by_client_uuid a v s.by_addr h e in
    let there = lookup-IsRegistered s.by_client_uuid b w s.by_addr h f in cc
