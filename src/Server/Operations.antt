-- ===== src/Server/Operations.antt =====
-- Every operation on the sessions keeps their two maps in agreement.
use fly_ruler_proto.Base.Equality.{string_eq, Str, str_eq, str_eq_iff}
use fly_ruler_proto.Base.{
  ℕ, ◌-◌, ◌≡◌, refl, ap, ◌∙◌, ◌⊎◌, inl, inr, Option, none, some, List, [], ◌∷◌, arith, ltb,
  Bool-cases, Option-cases, All,
}
use fly_ruler_proto.Base.Dict.{lookup, insert, remove, lookup-insert, lookup-remove}
use fly_ruler_proto.Float.{F64}
use fly_ruler_proto.Pb.{Uuid, ClientRole}
use fly_ruler_proto.Server.{
  SocketAddr, Clock, Session, SessionState, is_subscriber, change_session, touch_addr, new_session,
  displace, set_session, session_is, subscribe_cursor, acknowledges, acknowledge_cursor_event,
  set_cursor_epoch, remove_by_addr, expired_sessions, remove_expired, cleanup_expired,
}
use fly_ruler_proto.Server.Registered.{
  IsRegistered, IsConsistent, lookup-IsRegistered, insert-IsRegistered, file_free-IsRegistered,
  refile-IsRegistered, drop-IsRegistered,
}

-- A change of a session that keeps its address and its UUID.
abbrev Keeps : (Session → Session) → Type 0
Keeps f = (v : Session) → ((f v).addr ≡ v.addr) × ((f v).client_uuid_hex ≡ v.client_uuid_hex)

pub change_session-IsConsistent :
    (f : Session → Session) (a : SocketAddr) (s : SessionState)
    → Keeps f
    → IsConsistent s
    → IsConsistent (change_session f a s)
unfolding change_session
change_session-IsConsistent f a s k h = elim (Option-cases (lookup a s.by_addr)) [
  | inl e ↦ rw (e, change_session) h
  | inr (v, e) ↦
      let (named, filed) = lookup-IsRegistered s.by_client_uuid a v s.by_addr h e in
      rw (e, change_session)
        (insert-IsRegistered s.by_client_uuid a (f v) s.by_addr h ((k v).0 ∙ named)
          (ap (λ u. lookup u s.by_client_uuid) (k v).1 ∙ filed))
]

pub touch_addr-IsConsistent :
    (clock : Clock) (a : SocketAddr) (s : SessionState)
    → IsConsistent s
    → IsConsistent (touch_addr clock a s)
unfolding touch_addr
touch_addr-IsConsistent clock a s h = change_session-IsConsistent _ a s (λ v. (refl, refl)) h

pub set_session-IsConsistent :
    (clock : Clock) (a : SocketAddr) (u : Str) (r : ClientRole) (s : SessionState)
    → IsConsistent s
    → IsConsistent (set_session clock a u r s)
unfolding set_session
set_session-IsConsistent clock a u r s h =
    insert-IsRegistered (insert u a s.by_client_uuid) a (new_session clock a u r) _ displaced refl
      filed
  where
    filed : lookup u (insert u a s.by_client_uuid) ≡ some a
    filed = ground (arith, lookup-insert u u a s.by_client_uuid, str_eq_iff u u)

    displaced :
        IsRegistered (insert u a s.by_client_uuid) (displace (lookup u s.by_client_uuid) s.by_addr)
    displaced = elim (Option-cases (lookup u s.by_client_uuid)) [
      | inl e ↦ rw e (file_free-IsRegistered s.by_client_uuid u a s.by_addr e h)
      | inr (old, e) ↦ rw e (refile-IsRegistered s.by_client_uuid u a old s.by_addr e h)
    ]

pub subscribe_cursor-IsConsistent :
    (a : SocketAddr) (hz : F64) (s : SessionState)
    → IsConsistent s
    → IsConsistent (subscribe_cursor a hz s).1
unfolding subscribe_cursor
subscribe_cursor-IsConsistent a hz s h =
    elim (Bool-cases (session_is (λ v. is_subscriber v.role) a s)) [
      | inl e ↦ rw e (change_session-IsConsistent _ a s (λ v. (refl, refl)) h)
      | inr e ↦ rw e h
    ]

pub acknowledge_cursor_event-IsConsistent :
    (a : SocketAddr) (epoch : Option Uuid) (n : ℕ) (s : SessionState)
    → IsConsistent s
    → IsConsistent (acknowledge_cursor_event a epoch n s).1
unfolding acknowledge_cursor_event
acknowledge_cursor_event-IsConsistent a epoch n s h =
    elim (Bool-cases (session_is (acknowledges epoch n) a s)) [
      | inl e ↦ rw e (change_session-IsConsistent _ a s (λ v. (refl, refl)) h)
      | inr e ↦ rw e h
    ]

pub set_cursor_epoch-IsConsistent :
    (a : SocketAddr) (epoch : List ℕ) (s : SessionState)
    → IsConsistent s
    → IsConsistent (set_cursor_epoch a epoch s)
unfolding set_cursor_epoch
set_cursor_epoch-IsConsistent a epoch s h =
    change_session-IsConsistent _ a s
      (λ v. elim (Bool-cases (is_subscriber v.role)) [
        | inl e ↦ rw e (refl, refl)
        | inr e ↦ rw e (refl, refl)
      ])
      h

pub remove_by_addr-IsConsistent :
    (a : SocketAddr) (s : SessionState) → IsConsistent s → IsConsistent (remove_by_addr a s)
unfolding remove_by_addr
remove_by_addr-IsConsistent a s h = elim (Option-cases (lookup a s.by_addr)) [
  | inl e ↦ rw (e, remove_by_addr) h
  | inr (v, e) ↦
      let (named, filed) = lookup-IsRegistered s.by_client_uuid a v s.by_addr h e in
      rw (e, remove_by_addr)
        (drop-IsRegistered s.by_client_uuid v.client_uuid_hex a s.by_addr (inl filed) h)
]

-- Each pair is filed so, or its UUID not at all.
abbrev AreFiled : List (Str × SocketAddr) → List (SocketAddr × Str) → Type 0
AreFiled uuids pairs = All (λ p. (lookup p.1 uuids ≡ some p.0) ⊎ (lookup p.1 uuids ≡ none)) pairs

AreFiled-remove :
    (uuids : List (Str × SocketAddr)) (u : Str) (pairs : List (SocketAddr × Str))
    → AreFiled uuids pairs
    → AreFiled (remove u uuids) pairs
AreFiled-remove uuids u [] h = tt
AreFiled-remove uuids u ((a, w) ∷ pairs) h = (
  elim (Bool-cases (str_eq u w)) [
    | inl e ↦ inr (lookup-remove u w uuids ∙ rw e refl)
    | inr e ↦ elim h.0 [
      | inl filed ↦ inl (lookup-remove u w uuids ∙ rw e filed)
      | inr free ↦ inr (lookup-remove u w uuids ∙ rw e free)
    ]
  ],
  AreFiled-remove uuids u pairs h.1,
)

pub remove_expired-IsConsistent :
    (pairs : List (SocketAddr × Str)) (s : SessionState)
    → AreFiled s.by_client_uuid pairs
    → IsConsistent s
    → IsConsistent (remove_expired pairs s)
unfolding remove_expired
remove_expired-IsConsistent [] s filed h = h
remove_expired-IsConsistent ((a, u) ∷ pairs) s filed h =
    remove_expired-IsConsistent pairs _ (AreFiled-remove s.by_client_uuid u pairs filed.1)
      (drop-IsRegistered s.by_client_uuid u a s.by_addr filed.0 h)

expired_sessions-AreFiled :
    (timeout instant : ℕ) (uuids : List (Str × SocketAddr)) (m : List (SocketAddr × Session))
    → IsRegistered uuids m
    → AreFiled uuids (expired_sessions timeout instant m)
unfolding expired_sessions
expired_sessions-AreFiled timeout instant uuids [] h = tt
expired_sessions-AreFiled timeout instant uuids ((a, v) ∷ m) h =
    elim (Bool-cases (ltb timeout (instant - v.last_seen_at))) [
      | inl e ↦ rw e (inl h.1, expired_sessions-AreFiled timeout instant uuids m h.2)
      | inr e ↦ rw e (expired_sessions-AreFiled timeout instant uuids m h.2)
    ]

pub cleanup_expired-IsConsistent :
    (timeout instant : ℕ) (s : SessionState)
    → IsConsistent s
    → IsConsistent (cleanup_expired timeout instant s)
unfolding cleanup_expired
cleanup_expired-IsConsistent timeout instant s h =
    remove_expired-IsConsistent (expired_sessions timeout instant s.by_addr) s
      (expired_sessions-AreFiled timeout instant s.by_client_uuid s.by_addr h) h
