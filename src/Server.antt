-- ===== src/Server.antt =====
-- `core/src/transport/server.rs`: the sessions of the UDP server.
pub mod Receive
pub mod Registered
pub mod Turns
pub mod Operations
pub mod Consistent
pub mod Justified
pub mod Authority
pub mod Acknowledged
mod Examples
use fly_ruler_proto.Base.Equality.{string_eq, ◌==◌, Str}
use fly_ruler_proto.Base.{
  ℕ, ◌+◌, ◌-◌, ◌%◌, ◌^◌, Bool, true, false, ◌&&◌, Option, none, some, List, [], ◌∷◌, map, ltb, eqb,
  if◌then◌else◌, is_some_and, map_option,
}
use fly_ruler_proto.Base.Dict.{lookup, insert, remove}
use fly_ruler_proto.Float.{F64, plus}
use fly_ruler_proto.Pb.{Uuid, ClientRole, unspecified_role, producer, cursor_subscriber}

-- An address and its port, as numbers.
abbrev pub SocketAddr : Type 0
SocketAddr = List ℕ

-- A reading of the clocks: seconds since the Unix epoch, and an `Instant` in nanoseconds.
pub record Clock : Type 0 where
  pub now_secs : F64
  pub instant : ℕ

pub record Session : Type 0 where
  pub addr : SocketAddr
  pub client_uuid_hex : Str
  pub last_seen_secs : F64
  pub role : ClientRole
  pub cursor_subscribed : Bool
  pub cursor_requested_hz : F64
  pub cursor_event_ack : ℕ
  pub cursor_epoch : List ℕ
  pub last_seen_at : ℕ

pub record SessionState : Type 0 where
  pub by_addr : List (SocketAddr × Session)
  pub by_client_uuid : List (Str × SocketAddr)

-- `SessionState::new`.
abbrev pub new_sessions : SessionState
new_sessions = record { by_addr = []; by_client_uuid = [] }

abbrev pub is_producer : ClientRole → Bool
is_producer unspecified_role = false
is_producer producer = true
is_producer cursor_subscriber = false

abbrev pub is_subscriber : ClientRole → Bool
is_subscriber unspecified_role = false
is_subscriber producer = false
is_subscriber cursor_subscriber = true

-- `if let Some(session) = by_addr.get_mut(&addr) { … }`.
unfoldable pub change_session : (Session → Session) → SocketAddr → SessionState → SessionState
change_session f addr s = elim (lookup addr s.by_addr) [
  | none ↦ s
  | some session ↦ record s { by_addr = insert addr (f session) s.by_addr }
]

unfoldable pub touch_addr : Clock → SocketAddr → SessionState → SessionState
unfolding change_session
touch_addr clock addr s =
    change_session
      (λ session. record session { last_seen_secs = clock.now_secs; last_seen_at = clock.instant })
      addr s

-- 30.0.
abbrev pub default_hz : F64
default_hz = plus 0x403e_0000_0000_0000

abbrev pub new_session : Clock → SocketAddr → Str → ClientRole → Session
new_session clock addr uuid role = record {
  addr = addr;
  client_uuid_hex = uuid;
  last_seen_secs = clock.now_secs;
  role = role;
  cursor_subscribed = false;
  cursor_requested_hz = default_hz;
  cursor_event_ack = 0;
  cursor_epoch = [];
  last_seen_at = clock.instant;
}

-- The sessions without the one at the address that the UUID had before, if any.
abbrev pub displace : Option SocketAddr → List (SocketAddr × Session) → List (SocketAddr × Session)
displace none m = m
displace (some old) m = remove old m

unfoldable pub set_session : Clock → SocketAddr → Str → ClientRole → SessionState → SessionState
set_session clock addr uuid role s = record {
  by_addr =
      insert addr (new_session clock addr uuid role)
        (displace (lookup uuid s.by_client_uuid) s.by_addr);
  by_client_uuid = insert uuid addr s.by_client_uuid;
}

-- Whether the session at an address passes a test.
abbrev pub session_is : (Session → Bool) → SocketAddr → SessionState → Bool
session_is p addr s = is_some_and (lookup addr s.by_addr) p

-- The answer, and the state after it.
unfoldable pub subscribe_cursor : SocketAddr → F64 → SessionState → Bool × SessionState
unfolding change_session
subscribe_cursor addr hz s =
    if session_is (λ session. is_subscriber session.role) addr s
    then (
      true,
      change_session
          (λ session. record session { cursor_subscribed = true; cursor_requested_hz = hz }) addr s,
    )
    else (false, s)

abbrev pub acknowledges : Option Uuid → ℕ → Session → Bool
acknowledges epoch sequence session =
    is_subscriber session.role
    && session.cursor_subscribed
    && is_some_and epoch (λ value. value.bytes == session.cursor_epoch)
    && eqb sequence ((session.cursor_event_ack + 1) % 2 ^ 64)

unfoldable pub acknowledge_cursor_event :
    SocketAddr → Option Uuid → ℕ → SessionState → Bool × SessionState
unfolding change_session
acknowledge_cursor_event addr epoch sequence s =
    if session_is (acknowledges epoch sequence) addr s
    then (true, change_session (λ session. record session { cursor_event_ack = sequence }) addr s)
    else (false, s)

unfoldable pub set_cursor_epoch : SocketAddr → List ℕ → SessionState → SessionState
unfolding change_session
set_cursor_epoch addr epoch s =
    change_session
      (λ session.
        if is_subscriber session.role then record session { cursor_epoch = epoch } else session)
      addr s

unfoldable pub role : SocketAddr → SessionState → Option ClientRole
role addr s = map_option (λ session. session.role) (lookup addr s.by_addr)

unfoldable pub remove_by_addr : SocketAddr → SessionState → SessionState
remove_by_addr addr s = elim (lookup addr s.by_addr) [
  | none ↦ s
  | some old ↦ record {
    by_addr = remove addr s.by_addr;
    by_client_uuid = remove old.client_uuid_hex s.by_client_uuid;
  }
]

-- `SessionState::list`.
unfoldable pub active_sessions : SessionState → List Session
active_sessions s = map (λ entry. entry.1) s.by_addr

-- The addresses and UUIDs of the sessions that were last seen more than the timeout ago.
unfoldable pub expired_sessions : ℕ → ℕ → List (SocketAddr × Session) → List (SocketAddr × Str)
expired_sessions timeout instant [] = []
expired_sessions timeout instant ((addr, session) ∷ m) =
    let rest = expired_sessions timeout instant m in
    if ltb timeout (instant - session.last_seen_at)
    then (addr, session.client_uuid_hex) ∷ rest
    else rest

unfoldable pub remove_expired : List (SocketAddr × Str) → SessionState → SessionState
remove_expired [] s = s
remove_expired ((addr, uuid) ∷ expired) s =
    remove_expired expired
      (record { by_addr = remove addr s.by_addr; by_client_uuid = remove uuid s.by_client_uuid })

unfoldable pub cleanup_expired : ℕ → ℕ → SessionState → SessionState
unfolding expired_sessions remove_expired
cleanup_expired timeout instant s = remove_expired (expired_sessions timeout instant s.by_addr) s
