-- ===== src/Server/Authority.antt =====
-- Who may upload: the handler is called only for senders that have introduced themselves as producers.
use fly_ruler_proto.Base.Equality.{string_eq}
use fly_ruler_proto.Base.{
  ℕ, ◌≡◌, refl, ap, inl, inr, true, false, none, some, List, ◌∷◌, arith, Bool-cases, Option-cases,
  is_some_and, Any,
}
use fly_ruler_proto.Base.Dict.{lookup, AllEntries-lookup}
use fly_ruler_proto.Pb.{
  Command, handshake, heartbeat, aircraft_event, cursor_subscribe, cursor_event_ack, Request,
  Message,
}
use fly_ruler_proto.Server.{SocketAddr, Clock, role, SessionState, is_producer, touch_addr}
use fly_ruler_proto.Server.Receive.{
  command_in, is_aircraft_event, handle_command, handle, is_producer_event, Datagram, no_bytes,
  undecodable, carrying, Arrival, ServerLoop, receive_message, receive_datagram, receive,
}
use fly_ruler_proto.Server.Turns.{Turn, arrives, run_turns}
use fly_ruler_proto.Server.Justified.{
  introduces_producer, is_introduction, Introduces, Justified, AreJustified, receive-AreJustified,
  run_turns-AreJustified,
}

-- What the loop found in a message that it delivered, given its command.
handled_event :
    (clock : Clock) (a : SocketAddr) (req : Request) (c : Command) (s : SessionState)
    → is_aircraft_event c ≡ true
    → is_some_and (role a (handle_command clock a req c s).0) is_producer ≡ true
    → ((handle_command clock a req c s).1 ≡ none) × (introduces_producer c ≡ false)
unfolding handle_command
handled_event clock a req (aircraft_event e) s is h = (rw h refl, refl)
handled_event clock a req (handshake e) s is h = absurd (cc)
handled_event clock a req (heartbeat e) s is h = absurd (cc)
handled_event clock a req (cursor_subscribe e) s is h = absurd (cc)
handled_event clock a req (cursor_event_ack e) s is h = absurd (cc)

delivered_message :
    (arrival : Arrival) (m msg : Message) (s : SessionState)
    → (receive_message arrival m s).delivered ≡ some msg
    → (m ≡ msg)
      × ((receive_message arrival m s).reply ≡ none)
      × (is_introduction (carrying m) ≡ false)
      × (is_some_and (role arrival.addr (receive_message arrival m s).after.sessions) is_producer
          ≡ true)
unfolding receive_message handle is_producer_event
delivered_message arrival m msg s h = elim (Option-cases (command_in m)) [
  | inl e ↦ absurd (ground arith)
  | inr ((req, c), e) ↦
      let touched = touch_addr arrival.touched arrival.addr s in
      ground (arith, handled_event arrival.handled arrival.addr req c touched)
]

-- What the loop found in a datagram from which it delivered a message.
delivered_datagram :
    (timeout : ℕ) (arrival : Arrival) (msg : Message) (l : ServerLoop)
    → (receive timeout arrival l).delivered ≡ some msg
    → (arrival.datagram ≡ carrying msg)
      × ((receive timeout arrival l).reply ≡ none)
      × (is_introduction arrival.datagram ≡ false)
      × (is_some_and (role arrival.addr (receive timeout arrival l).after.sessions) is_producer
          ≡ true)
unfolding receive
delivered_datagram timeout arrival msg l h = elim (Bool-cases l.running) [
  | inr e ↦ absurd (ground arith)
  | inl e ↦ rw e (found arrival.datagram _ (rw e at h))
]
  where
    found :
        (datagram : Datagram) (s : SessionState)
        → (receive_datagram arrival datagram s).delivered ≡ some msg
        → (datagram ≡ carrying msg)
          × ((receive_datagram arrival datagram s).reply ≡ none)
          × (is_introduction datagram ≡ false)
          × (is_some_and
                (role arrival.addr (receive_datagram arrival datagram s).after.sessions)
                is_producer
              ≡ true)
    found no_bytes s k = absurd (cc)
    found undecodable s k = absurd (cc)
    found (carrying m) s k =
        let (same, quiet, new, entitled) = delivered_message arrival m msg s k in
        (ap carrying same, quiet, new, entitled)

producer-Introduces :
    (turns : List Turn) (a : SocketAddr) (s : SessionState)
    → AreJustified turns s
    → is_some_and (role a s) is_producer ≡ true
    → Any (Introduces a) turns
unfolding role
producer-Introduces turns a s h p = elim (Option-cases (lookup a s.by_addr)) [
  | inl e ↦ absurd (ground arith)
  | inr (v, e) ↦ elim (AllEntries-lookup (Justified turns) a v s.by_addr h e) [
    | inl n ↦ absurd (ground arith)
    | inr k ↦ k
  ]
]

-- After any turns of a new server, in which datagrams of any content arrive, sessions are removed
-- and stream epochs set: if an arrival makes the receive loop call the handler with a message,
-- then the datagram carried that message, it gets no reply, and an earlier datagram from the same
-- address was a handshake of this protocol version in the role of a producer that named its UUID.
pub run_turns-delivered :
    (timeout : ℕ) (earlier : List Turn) (arrival : Arrival) (msg : Message)
    → (receive timeout arrival (run_turns timeout earlier)).delivered ≡ some msg
    → (arrival.datagram ≡ carrying msg)
      × ((receive timeout arrival (run_turns timeout earlier)).reply ≡ none)
      × Any (Introduces arrival.addr) earlier
run_turns-delivered timeout earlier arrival msg h =
    let l = run_turns timeout earlier in
    let (is, quiet, new, entitled) = delivered_datagram timeout arrival msg l h in
    let here =
      receive-AreJustified timeout arrival earlier l (run_turns-AreJustified timeout earlier) in
    (
      is,
      quiet,
      elim (producer-Introduces (arrives arrival ∷ earlier) arrival.addr _ here entitled) [
        | inl (_, introduced) ↦ absurd (cc)
        | inr before ↦ before
      ],
    )
