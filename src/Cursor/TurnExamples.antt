-- ===== src/Cursor/TurnExamples.antt =====
-- The turns of one subscriber at a concrete timeline.
use fly_ruler_proto.Base.{
  inl, inr, arith, true, List, map, ◌∷◌, ℕ, ◌≡◌, [], length, none, some, refl, suc, zero,
}
use fly_ruler_proto.Store.Global.Collected.{event_total}
use fly_ruler_proto.Store.Valid.Steps.{append_event-IsValid}
use fly_ruler_proto.Store.Append.{append_event}
use fly_ruler_proto.Cursor.Delta.{delta_events-IsDelta, IsDelta}
use fly_ruler_proto.Base.Equality.{string_eq}
use fly_ruler_proto.Base.Dict.{insert, lookup}
use fly_ruler_proto.Cursor.Removed.{run_turns-removes}
use fly_ruler_proto.Cursor.Subscriber.{
  PendingEvents, Crates, CursorStreamConfig, Readings, SubscriberState, new_subscriber,
}
use fly_ruler_proto.Store.Summary.{sort_by, get_aircraft_ids}
use fly_ruler_proto.Playback.{resolve_aircraft_with, PlaybackSnapshot, replay_paused}
use fly_ruler_proto.Store.Query.{
  get_state_at_or_before, is_spawned_at, last_lifecycle, get_events_range,
}
use fly_ruler_proto.Float.{is_finite, le, total_lt, plus}
use fly_ruler_proto.Timeline.{last_at_or_before, range_filter, value, append_sorted}
use fly_ruler_proto.Store.Global.{event_before}
use fly_ruler_proto.Pb.{AircraftSpawnInfo, AircraftState}
use fly_ruler_proto.Cursor.{encode_cursor_chunks}
use fly_ruler_proto.Cursor.Events.{
  assemble_cursor_frame, spawned_aircraft, baseline_events, baseline_of, last_spawn, delta_events,
}
use fly_ruler_proto.Store.{
  TimeSeriesStore, TimestampedEvent, spawned, custom, new_store, GlobalTimestampedEvent,
}
use fly_ruler_proto.Cursor.Send.{subscriber_turn, frame_after, send_front, send_frame}
use fly_ruler_proto.Cursor.Publish.{refill, queue_pages, acknowledge}
use fly_ruler_proto.Cursor.Chain.{IsQueued}
use fly_ruler_proto.Cursor.Turns.{Tick, run_turns, run_turns-IsQueued}

abbrev turn_crates : Crates
turn_crates = record {
  encode_frame = λ f. f.frame_sequence ∷ [];
  encode_batch = λ b. length b.events ∷ [];
  encode_reset = λ r. [];
  parse_uuid = λ text. none;
  period = λ hz. value 10;
}

abbrev turn_config : CursorStreamConfig
turn_config = record {
  publish_hz = plus 60;
  max_subscribers = 2;
  stale_timeout = 5;
  event_retry_interval = 3;
  event_retry_limit = 2;
}

abbrev readings_at : ℕ → Readings
readings_at now = record {
  queued = λ page. now;
  checked = now;
  sent = now;
  due = now;
  assembled = now;
  framed = now;
  wall = plus 0;
}

abbrev info : AircraftSpawnInfo
info = record { name = b'n' ∷ []; toml_config = []; initial_state = none; telemetry_schemas = [] }

abbrev blank : AircraftState
blank = record {
  position = none;
  velocity = none;
  attitude = none;
  angular_velocity = none;
  derived = none;
  control_surfaces = none;
  linear_acceleration_body = none;
  propulsors = [];
}

abbrev repeated : ℕ → TimestampedEvent → List TimestampedEvent
repeated zero e = []
repeated (suc n) e = e ∷ repeated n e

-- One aircraft with its spawn and 33 events after it.
abbrev busy_store : TimeSeriesStore
busy_store = record {
  series =
      (
        b'a' ∷ [],
        record {
          states = record { timestamp_secs = plus 1; state = blank } ∷ [];
          events =
              record { timestamp_secs = plus 1; event = spawned info }
              ∷ repeated 33 (record { timestamp_secs = plus 2; event = custom [] });
          telemetry = [];
          config = none;
        },
      )
      ∷ [];
  live_state_receipts = [];
}

abbrev paused : PlaybackSnapshot
paused = record {
  mode = replay_paused;
  cursor_secs = some (plus 3);
  speed = plus 1;
  bounds = none;
  revision = 7;
}

-- A reading of the clock and what is acknowledged by then.
abbrev tick_at : ℕ → ℕ → Tick
tick_at now ack = record {
  store = busy_store;
  snapshot = paused;
  frame_sequence = now;
  ack = ack;
  requested_hz = plus 30;
  readings = readings_at now;
}

abbrev ticks : List Tick
ticks = tick_at 1 0 ∷ tick_at 4 0 ∷ []

-- The two pages of the 34 events: the first was sent twice, since it was not acknowledged.
abbrev turned : SubscriberState
turned = elim (run_turns turn_crates turn_config 5 (5 ∷ []) ticks new_subscriber) [
  | value (some s) ↦ s
  | _ ↦ new_subscriber
]

turned_numbers :
    (map (λ p. p.sequence) turned.pending ≡ 1 ∷ 2 ∷ [])
    × (map (λ p. p.attempts) turned.pending ≡ 2 ∷ 0 ∷ [])
unfolding run_turns subscriber_turn frame_after refill queue_pages acknowledge send_front send_frame
    assemble_cursor_frame spawned_aircraft baseline_events baseline_of last_spawn get_events_range
    encode_cursor_chunks sort_by get_aircraft_ids resolve_aircraft_with get_state_at_or_before
    is_finite lookup last_at_or_before le is_spawned_at last_lifecycle range_filter event_before
    total_lt
turned_numbers = (refl, refl)

run_turns-IsQueued_example : IsQueued 2 turned
unfolding run_turns subscriber_turn frame_after refill queue_pages acknowledge send_front send_frame
    assemble_cursor_frame spawned_aircraft baseline_events baseline_of last_spawn get_events_range
    encode_cursor_chunks sort_by get_aircraft_ids resolve_aircraft_with get_state_at_or_before
    is_finite lookup last_at_or_before le is_spawned_at last_lifecycle range_filter event_before
    total_lt
run_turns-IsQueued_example = run_turns-IsQueued turn_crates turn_config 5 (5 ∷ []) ticks turned refl

-- A page that was sent once, at 1.
abbrev sent_page : PendingEvents
sent_page = record {
  sequence = 1;
  revision = 7;
  cursor = some (plus 3);
  messages = [];
  reset_messages = [];
  last_sent = 1;
  attempts = 1;
  final_page = true;
}

abbrev waiting : SubscriberState
waiting = record new_subscriber { next_event_sequence = 1; pending = sent_page ∷ [] }

abbrev silent_ticks : List Tick
silent_ticks = tick_at 2 0 ∷ tick_at 4 0 ∷ tick_at 6 0 ∷ tick_at 8 0 ∷ tick_at 11 0 ∷ []

-- Nothing is due at 2 and 6; it is sent again at 4, and at 8 the subscriber is removed.
run_turns-removes_example :
    run_turns turn_crates turn_config 5 (5 ∷ []) silent_ticks waiting ≡ value none
run_turns-removes_example =
    run_turns-removes turn_crates turn_config 5 (5 ∷ []) 3 1 silent_ticks waiting sent_page [] refl
      (
        omega arith,
        omega arith,
        omega arith,
        (10, refl),
        (
          omega arith,
          omega arith,
          omega arith,
          (10, refl),
          (
            omega arith,
            omega arith,
            omega arith,
            (10, refl),
            (
              omega arith,
              omega arith,
              omega arith,
              (10, refl),
              (omega arith, omega arith, omega arith, (10, refl), tt),
            ),
          ),
        ),
      )
      (omega arith) (inr (inr (inr (inr (inl (omega arith))))))

-- Two events of an aircraft, at 1 and at 2.
abbrev delta_store : TimeSeriesStore
delta_store =
    append_event (append_event new_store (b'a' ∷ []) (plus 1) (custom [])) (b'a' ∷ []) (plus 2)
      (custom [])

delta_total : event_total delta_store (get_aircraft_ids delta_store) ≡ 2
unfolding append_event get_aircraft_ids sort_by lookup insert is_finite append_sorted le
delta_total = refl

delta_events-IsDelta_example :
    (gs : List GlobalTimestampedEvent) × (delta_events delta_store (some (plus 1)) (some (plus 3))
      ≡ value gs)
    × IsDelta delta_store (plus 1) (plus 3) gs
unfolding le
delta_events-IsDelta_example =
    delta_events-IsDelta delta_store (plus 1) (plus 3)
      (append_event-IsValid (append_event new_store (b'a' ∷ []) (plus 1) (custom [])) (b'a' ∷ [])
        (plus 2) (custom []) (append_event-IsValid new_store (b'a' ∷ []) (plus 1) (custom []) tt))
      refl (omega (arith, delta_total))
