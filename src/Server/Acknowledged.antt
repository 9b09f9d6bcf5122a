-- ===== src/Server/Acknowledged.antt =====
-- The acknowledgement of reliable event batches, one after the other.
use fly_ruler_proto.Base.Equality.{string_eq, str_eq, str_eq_iff}
use fly_ruler_proto.Base.{
  ℕ, ◌+◌, ◌%◌, ◌^◌, ◌≡◌, refl, ◌∙◌, subst, inl, inr, true, false, Option, some, arith,
  if◌then◌else◌, Bool-cases, Option-cases,
}
use fly_ruler_proto.Base.Dict.{lookup, lookup-insert}
use fly_ruler_proto.Pb.{Uuid}
use fly_ruler_proto.Server.{
  SocketAddr, Session, SessionState, change_session, acknowledges, acknowledge_cursor_event,
}

lookup-change_session :
    (f : Session → Session) (a b : SocketAddr) (v : Session) (s : SessionState)
    → lookup a s.by_addr ≡ some v
    → lookup b (change_session f a s).by_addr
      ≡ (if str_eq a b then some (f v) else lookup b s.by_addr)
unfolding change_session
lookup-change_session f a b v s e = rw (e, change_session) (lookup-insert a b (f v) s.by_addr)

repeated :
    (epoch : Option Uuid) (n : ℕ) (v : Session)
    → acknowledges epoch n v ≡ true
    → acknowledges epoch n (record v { cursor_event_ack = n }) ≡ false
repeated epoch n v h = ground arith

-- An acknowledgement that is accepted comes from an address with a session and has the number
-- after the one that the session had acknowledged, modulo 2^64; the session then differs in this
-- number only, and the same acknowledgement is refused the next time and changes nothing.
pub acknowledge_cursor_event-advances :
    (a : SocketAddr) (epoch : Option Uuid) (n : ℕ) (s s' : SessionState)
    → acknowledge_cursor_event a epoch n s ≡ (true, s')
    → (v : Session) × (lookup a s.by_addr ≡ some v)
      × (n ≡ (v.cursor_event_ack + 1) % 2 ^ 64)
      × (lookup a s'.by_addr ≡ some (record v { cursor_event_ack = n }))
      × (acknowledge_cursor_event a epoch n s' ≡ (false, s'))
unfolding acknowledge_cursor_event
acknowledge_cursor_event-advances a epoch n s s' h = elim (Option-cases (lookup a s.by_addr)) [
  | inl e ↦ absurd (ground arith)
  | inr (v, e) ↦ elim (Bool-cases (acknowledges epoch n v)) [
    | inr k ↦ absurd (ground arith)
    | inl k ↦
        let f : Session → Session = λ session. record session { cursor_event_ack = n } in
        let same : change_session f a s ≡ s' = ground arith in
        let after : lookup a s'.by_addr ≡ some (f v) =
          subst (λ x. lookup a x.by_addr ≡ some (f v)) same
            (lookup-change_session f a a v s e ∙ ground (arith, str_eq_iff a a)) in
        (v, e, ground arith, after, rw (after, repeated epoch n v k) refl)
  ]
]
