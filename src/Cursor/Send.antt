-- ===== src/Cursor/Send.antt =====
-- What the publisher of `core/src/cursor.rs` sends one subscriber at a tick of its interval.
use fly_ruler_proto.Cursor.Publish.{acknowledge, refill}
use fly_ruler_proto.Cursor.Subscriber.{CursorStreamConfig, Crates, SubscriberState, Readings}
use fly_ruler_proto.Float.{F64, fmin}
use fly_ruler_proto.Playback.{PlaybackSnapshot}
use fly_ruler_proto.Cursor.Events.{assemble_cursor_frame}
use fly_ruler_proto.Store.{TimeSeriesStore}
use fly_ruler_proto.Base.{
  [], ◌∷◌, none, some, if◌then◌else◌, Option, ℕ, List, ◌++◌, leb, unwrap_or, eqb, ◌||◌, is_some_and,
  ◌+◌, map_option, get_last?, ◌-◌, ltb,
}
use fly_ruler_proto.Base.Int.{pos}
use fly_ruler_proto.Timeline.{Outcome, value, panic, map_outcome}
use fly_ruler_proto.Cursor.{done, invalid, Message, encode_cursor_chunks}

-- The first page is sent, or sent again; nothing if the subscriber has not acknowledged it after so
-- many attempts, and is removed.
unfoldable pub send_front :
    CursorStreamConfig → Readings → SubscriberState → Option (SubscriberState × List Message)
send_front config t s = elim s.pending [
  | [] ↦ some (s, [])
  | p ∷ ps ↦
      if eqb p.attempts 0 || leb config.event_retry_interval (t.checked - p.last_sent)
      then if leb config.event_retry_limit p.attempts
        then none
        else some (
          record s { pending = record p { attempts = p.attempts + 1; last_sent = t.sent } ∷ ps },
          p.reset_messages ++ p.messages,
        )
      else some (s, [])
]

-- The number up to which events must be applied before the frame is shown.
abbrev pub watermark : ℕ → SubscriberState → ℕ
watermark ack s = unwrap_or (map_option (λ p. p.sequence) (get_last? s.pending)) ack

-- The frame is sent if the last one was a `period` ago.
unfoldable pub frame_after :
    Crates
    → ℕ
    → TimeSeriesStore
    → List ℕ
    → PlaybackSnapshot
    → ℕ
    → ℕ
    → Readings
    → SubscriberState
    → ℕ
    → SubscriberState × List Message
frame_after x stale_timeout store epoch snapshot frame_sequence ack t s period =
    if is_some_and s.last_frame_sent (λ sent. ltb (t.due - sent) period)
    then (s, [])
    else elim (encode_cursor_chunks epoch (pos 1) frame_sequence (
        x.encode_frame (
          assemble_cursor_frame x.parse_uuid store snapshot stale_timeout epoch frame_sequence
            (watermark ack s) t.assembled t.wall))) [
              | invalid e ↦ (s, [])
              | done messages ↦ (record s { last_frame_sent = some t.framed }, messages)
            ]

unfoldable pub send_frame :
    Crates
    → CursorStreamConfig
    → ℕ
    → TimeSeriesStore
    → List ℕ
    → PlaybackSnapshot
    → ℕ
    → ℕ
    → F64
    → Readings
    → SubscriberState
    → Outcome (SubscriberState × List Message)
unfolding frame_after
send_frame x config stale_timeout store epoch snapshot frame_sequence ack requested_hz t s =
    map_outcome (frame_after x stale_timeout store epoch snapshot frame_sequence ack t s)
      (x.period (fmin requested_hz config.publish_hz))

-- What a turn leaves of the subscriber (nothing if it is removed), and the messages that it sends.
abbrev pub SubscriberTurn : Type 0
SubscriberTurn = Option SubscriberState × List Message

-- The body of the loop over the subscribers.
unfoldable pub subscriber_turn :
    Crates
    → CursorStreamConfig
    → ℕ
    → TimeSeriesStore
    → List ℕ
    → PlaybackSnapshot
    → ℕ
    → ℕ
    → F64
    → Readings
    → SubscriberState
    → Outcome SubscriberTurn
unfolding acknowledge refill send_front send_frame
subscriber_turn x config stale_timeout store epoch snapshot frame_sequence ack requested_hz t s =
    elim (refill x store epoch snapshot t (acknowledge ack s)) [
      | panic ↦ panic
      | value s' ↦ elim (send_front config t s') [
        | none ↦ value (none, [])
        | some (fronted, events) ↦
            map_outcome (λ framed. (some framed.0, events ++ framed.1))
              (send_frame x config stale_timeout store epoch snapshot frame_sequence ack
                requested_hz t fronted)
      ]
    ]
