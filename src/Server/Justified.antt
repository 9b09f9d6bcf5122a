-- ===== src/Server/Justified.antt =====
-- Every session of a producer stands at an address that has introduced itself as one.
use fly_ruler_proto.Base.Equality.{◌==◌, string_eq, Str}
use fly_ruler_proto.Base.{
  ℕ, ◌≡◌, refl, sym, ap, ◌∙◌, subst, ◌⊎◌, inl, inr, Bool, true, false, not, ◌&&◌, ◌||◌, Option,
  none, some, List, [], ◌∷◌, arith, Bool-cases, Option-cases, is_some_and, Any,
}
use fly_ruler_proto.Base.Dict.{
  lookup, AllEntries, AllEntries-lookup, AllEntries-insert, AllEntries-remove, AllEntries-implies,
}
use fly_ruler_proto.Float.{F64, plus, is_finite, le}
use fly_ruler_proto.Pb.{
  ClientRole, unspecified_role, producer, cursor_subscriber, Handshake, Command, handshake,
  heartbeat, aircraft_event, cursor_subscribe, cursor_event_ack, Request, Message,
}
use fly_ruler_proto.Server.{
  SocketAddr, Clock, Session, SessionState, is_producer, is_subscriber, change_session, touch_addr,
  new_session, displace, set_session, session_is, subscribe_cursor, acknowledges,
  acknowledge_cursor_event, set_cursor_epoch, remove_by_addr, expired_sessions, remove_expired,
  cleanup_expired,
}
use fly_ruler_proto.Server.Receive.{
  protocol_version, command_in, uuid_in, role_of, accept_handshake, subscribe, handle_command,
  handle, Datagram, no_bytes, undecodable, carrying, Arrival, ServerLoop, receive_datagram, receive,
}
use fly_ruler_proto.Server.Turns.{Turn, arrives, removes, sets_epoch, take_turn, run_turns}

abbrev is_some {ℓ} : {A : Type ℓ} → Option A → Bool
is_some none = false
is_some (some a) = true

abbrev pub introduces_producer : Command → Bool
introduces_producer (handshake hs) =
    hs.version == protocol_version && is_producer (role_of hs) && is_some hs.client_uuid
introduces_producer (heartbeat h) = false
introduces_producer (aircraft_event e) = false
introduces_producer (cursor_subscribe c) = false
introduces_producer (cursor_event_ack c) = false

-- A datagram with a handshake of this protocol version, of a producer that names its UUID.
abbrev pub is_introduction : Datagram → Bool
is_introduction no_bytes = false
is_introduction undecodable = false
is_introduction (carrying msg) = is_some_and (command_in msg) (λ c. introduces_producer c.1)

-- The turn is an introduction from the address.
abbrev pub Introduces : SocketAddr → Turn → Type 0
Introduces a (arrives arrival) = (arrival.addr ≡ a) × (is_introduction arrival.datagram ≡ true)
Introduces a (removes b) = ⊥
Introduces a (sets_epoch b epoch) = ⊥

-- A session of a producer, at an address that one of the turns introduced.
abbrev pub Justified : List Turn → SocketAddr → Session → Type 0
Justified turns a v = (is_producer v.role ≡ false) ⊎ Any (Introduces a) turns

abbrev pub AreJustified : List Turn → SessionState → Type 0
AreJustified turns s = AllEntries (Justified turns) s.by_addr

change_session-AreJustified :
    (turns : List Turn) (f : Session → Session) (a : SocketAddr) (s : SessionState)
    → ((v : Session) → (f v).role ≡ v.role)
    → AreJustified turns s
    → AreJustified turns (change_session f a s)
unfolding change_session
change_session-AreJustified turns f a s k h = elim (Option-cases (lookup a s.by_addr)) [
  | inl e ↦ rw (e, change_session) h
  | inr (v, e) ↦
      rw (e, change_session)
        (AllEntries-insert (Justified turns) a (f v) s.by_addr h (
          subst (λ r. (is_producer r ≡ false) ⊎ Any (Introduces a) turns) (sym (k v))
            (AllEntries-lookup (Justified turns) a v s.by_addr h e)))
]

remove_expired-AreJustified :
    (turns : List Turn) (pairs : List (SocketAddr × Str)) (s : SessionState)
    → AreJustified turns s
    → AreJustified turns (remove_expired pairs s)
unfolding remove_expired
remove_expired-AreJustified turns [] s h = h
remove_expired-AreJustified turns ((a, u) ∷ pairs) s h =
    remove_expired-AreJustified turns pairs _ (AllEntries-remove (Justified turns) a s.by_addr h)

set_session-AreJustified :
    (turns : List Turn) (clock : Clock) (a : SocketAddr) (u : Str) (r : ClientRole)
    (s : SessionState)
    → (is_producer r ≡ false) ⊎ Any (Introduces a) turns
    → AreJustified turns s
    → AreJustified turns (set_session clock a u r s)
unfolding set_session
set_session-AreJustified turns clock a u r s j h =
    AllEntries-insert (Justified turns) a (new_session clock a u r) _ displaced j
  where
    displaced : AllEntries (Justified turns) (displace (lookup u s.by_client_uuid) s.by_addr)
    displaced = elim (Option-cases (lookup u s.by_client_uuid)) [
      | inl e ↦ rw e h
      | inr (old, e) ↦ rw e (AllEntries-remove (Justified turns) old s.by_addr h)
    ]

-- The role that a handshake gives is that of a producer only if the handshake is an introduction.
accept_handshake-AreJustified :
    (turns : List Turn) (clock : Clock) (a : SocketAddr) (req : Request) (r : ClientRole)
    (u : Option Str) (s : SessionState)
    → (is_producer r && is_some u ≡ false) ⊎ Any (Introduces a) turns
    → AreJustified turns s
    → AreJustified turns (accept_handshake clock a req r u s).0
unfolding accept_handshake
accept_handshake-AreJustified turns clock a req unspecified_role u s j h = h
accept_handshake-AreJustified turns clock a req producer none s j h = h
accept_handshake-AreJustified turns clock a req cursor_subscriber none s j h = h
accept_handshake-AreJustified turns clock a req producer (some u) s j h =
    set_session-AreJustified turns clock a u producer s j h
accept_handshake-AreJustified turns clock a req cursor_subscriber (some u) s j h =
    set_session-AreJustified turns clock a u cursor_subscriber s (inl refl) h

subscribe-AreJustified :
    (turns : List Turn) (clock : Clock) (a : SocketAddr) (req : Request) (hz : F64)
    (s : SessionState)
    → AreJustified turns s
    → AreJustified turns (subscribe clock a req hz s).0
unfolding subscribe subscribe_cursor
subscribe-AreJustified turns clock a req hz s h =
    elim (Bool-cases (not (is_finite hz) || le hz (plus 0))) [
      | inl e ↦ rw e h
      | inr e ↦ elim (Bool-cases (session_is (λ v. is_subscriber v.role) a s)) [
        | inl k ↦ rw (e, k) (change_session-AreJustified turns _ a s (λ v. refl) h)
        | inr k ↦ rw (e, k) h
      ]
    ]

handshake-introduces :
    (hs : Handshake)
    → introduces_producer (handshake hs) ≡ false
    → (hs.version == protocol_version) ≡ true
    → (is_producer (role_of hs) && is_some (uuid_in (handshake hs))) ≡ false
handshake-introduces hs h e = elim (Option-cases hs.client_uuid) [
  | inl k ↦ ground arith
  | inr (u, k) ↦ ground arith
]

handle_command-AreJustified :
    (turns : List Turn) (clock : Clock) (a : SocketAddr) (req : Request) (c : Command)
    (s : SessionState)
    → (introduces_producer c ≡ false) ⊎ Any (Introduces a) turns
    → AreJustified turns s
    → AreJustified turns (handle_command clock a req c s).0
unfolding handle_command acknowledge_cursor_event
handle_command-AreJustified turns clock a req (handshake hs) s j h =
    elim (Bool-cases (hs.version == protocol_version)) [
      | inl e ↦ rw e (
          accept_handshake-AreJustified turns clock a req (role_of hs) (uuid_in (handshake hs)) s
            (elim j [ inl n ↦ inl (handshake-introduces hs n e) | inr k ↦ inr k ]) h)
      | inr e ↦ rw e h
    ]
handle_command-AreJustified turns clock a req (heartbeat hb) s j h = h
handle_command-AreJustified turns clock a req (aircraft_event e) s j h = h
handle_command-AreJustified turns clock a req (cursor_subscribe c) s j h =
    subscribe-AreJustified turns clock a req c.requested_hz s h
handle_command-AreJustified turns clock a req (cursor_event_ack c) s j h =
    elim (Bool-cases (session_is (acknowledges c.server_epoch c.event_sequence) a s)) [
      | inl e ↦ rw e (change_session-AreJustified turns _ a s (λ v. refl) h)
      | inr e ↦ rw e h
    ]

handle-AreJustified :
    (turns : List Turn) (clock : Clock) (a : SocketAddr) (msg : Message) (s : SessionState)
    → (is_introduction (carrying msg) ≡ false) ⊎ Any (Introduces a) turns
    → AreJustified turns s
    → AreJustified turns (handle clock a msg s).0
unfolding handle
handle-AreJustified turns clock a msg s j h = elim (Option-cases (command_in msg)) [
  | inl e ↦ rw (e, handle) h
  | inr ((req, c), e) ↦
      rw (e, handle)
        (handle_command-AreJustified turns clock a req c s
          (elim j [ inl n ↦ inl (ground arith) | inr k ↦ inr k ]) h)
]

touch_addr-AreJustified :
    (turns : List Turn) (clock : Clock) (a : SocketAddr) (s : SessionState)
    → AreJustified turns s
    → AreJustified turns (touch_addr clock a s)
unfolding touch_addr
touch_addr-AreJustified turns clock a s h = change_session-AreJustified turns _ a s (λ v. refl) h

cleanup_expired-AreJustified :
    (turns : List Turn) (timeout instant : ℕ) (s : SessionState)
    → AreJustified turns s
    → AreJustified turns (cleanup_expired timeout instant s)
unfolding cleanup_expired
cleanup_expired-AreJustified turns timeout instant s h =
    remove_expired-AreJustified turns (expired_sessions timeout instant s.by_addr) s h

later-AreJustified :
    (turn : Turn) (turns : List Turn) (s : SessionState)
    → AreJustified turns s
    → AreJustified (turn ∷ turns) s
later-AreJustified turn turns s h =
    AllEntries-implies (Justified turns) (Justified (turn ∷ turns)) s.by_addr
      (λ a v j. elim j [ inl n ↦ inl n | inr k ↦ inr (inr k) ]) h

pub receive-AreJustified :
    (timeout : ℕ) (arrival : Arrival) (earlier : List Turn) (l : ServerLoop)
    → AreJustified earlier l.sessions
    → AreJustified (arrives arrival ∷ earlier) (receive timeout arrival l).after.sessions
unfolding receive
receive-AreJustified timeout arrival earlier l h = elim (Bool-cases l.running) [
  | inr e ↦ rw e (later-AreJustified (arrives arrival) earlier l.sessions h)
  | inl e ↦ rw e (received arrival.datagram refl _ cleaned)
]
  where
    turns : List Turn
    turns = arrives arrival ∷ earlier

    cleaned : AreJustified turns (cleanup_expired timeout arrival.cleaned_at l.sessions)
    cleaned =
        cleanup_expired-AreJustified turns timeout arrival.cleaned_at l.sessions
          (later-AreJustified (arrives arrival) earlier l.sessions h)

    received :
        (datagram : Datagram)
        → arrival.datagram ≡ datagram
        → (s : SessionState) → AreJustified turns s
        → AreJustified turns (receive_datagram arrival datagram s).after.sessions
    received no_bytes is s k = k
    received undecodable is s k = k
    received (carrying msg) is s k =
        handle-AreJustified turns arrival.handled arrival.addr msg _
          (elim (Bool-cases (is_introduction (carrying msg))) [
            | inl e ↦ inr (inl (refl, ap is_introduction is ∙ e))
            | inr e ↦ inl e
          ])
          (touch_addr-AreJustified turns arrival.touched arrival.addr s k)

take_turn-AreJustified :
    (timeout : ℕ) (turn : Turn) (earlier : List Turn) (l : ServerLoop)
    → AreJustified earlier l.sessions
    → AreJustified (turn ∷ earlier) (take_turn timeout turn l).sessions
unfolding take_turn remove_by_addr set_cursor_epoch
take_turn-AreJustified timeout (arrives arrival) earlier l h =
    receive-AreJustified timeout arrival earlier l h
take_turn-AreJustified timeout (removes a) earlier l h =
    let k = later-AreJustified (removes a) earlier l.sessions h in
    elim (Option-cases (lookup a l.sessions.by_addr)) [
      | inl e ↦ rw (e, remove_by_addr) k
      | inr (v, e) ↦
          rw (e, remove_by_addr)
            (AllEntries-remove (Justified (removes a ∷ earlier)) a l.sessions.by_addr k)
    ]
take_turn-AreJustified timeout (sets_epoch a epoch) earlier l h =
    change_session-AreJustified (sets_epoch a epoch ∷ earlier) _ a l.sessions
      (λ v. elim (Bool-cases (is_subscriber v.role)) [ inl e ↦ rw e refl | inr e ↦ rw e refl ])
      (later-AreJustified (sets_epoch a epoch) earlier l.sessions h)

pub run_turns-AreJustified :
    (timeout : ℕ) (turns : List Turn) → AreJustified turns (run_turns timeout turns).sessions
unfolding run_turns
run_turns-AreJustified timeout [] = tt
run_turns-AreJustified timeout (turn ∷ earlier) =
    take_turn-AreJustified timeout turn earlier _ (run_turns-AreJustified timeout earlier)
