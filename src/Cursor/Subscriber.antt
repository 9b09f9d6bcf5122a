-- ===== src/Cursor/Subscriber.antt =====
-- What the publisher of `core/src/cursor.rs` keeps of a subscriber, and what it is given.
use fly_ruler_proto.Float.{F64}
use fly_ruler_proto.Cursor.Payloads.{CursorFrame, CursorEventBatch, CursorReset}
use fly_ruler_proto.Cursor.Events.{ParseUuid}
use fly_ruler_proto.Base.{[], none, Option, Bool, ℕ, List}
use fly_ruler_proto.Timeline.{Outcome}
use fly_ruler_proto.Cursor.{Message}

pub record CursorStreamConfig : Type 0 where
  pub publish_hz : F64
  pub max_subscribers : ℕ
  pub stale_timeout : ℕ
  pub event_retry_interval : ℕ
  pub event_retry_limit : ℕ

pub record PendingEvents : Type 0 where
  pub sequence : ℕ
  pub revision : ℕ
  pub cursor : Option F64
  pub messages : List Message
  pub reset_messages : List Message
  pub last_sent : ℕ
  pub attempts : ℕ
  pub final_page : Bool

pub record SubscriberState : Type 0 where
  pub last_revision : Option ℕ
  pub last_cursor : Option F64
  pub next_event_sequence : ℕ
  pub pending : List PendingEvents
  pub last_frame_sent : Option ℕ

-- `SubscriberState::default()`.
abbrev pub new_subscriber : SubscriberState
new_subscriber = record {
  last_revision = none;
  last_cursor = none;
  next_event_sequence = 0;
  pending = [];
  last_frame_sent = none;
}

-- What other crates give the publisher: the protobuf encoder of each payload, `Uuid::parse_str`, and
-- `Duration::from_secs_f64(1.0 / hz)` in nanoseconds, which panics where it does not fit.
pub record Crates : Type 0 where
  pub encode_frame : CursorFrame → List ℕ
  pub encode_batch : CursorEventBatch → List ℕ
  pub encode_reset : CursorReset → List ℕ
  pub parse_uuid : ParseUuid
  pub period : F64 → Outcome ℕ

-- The readings of the monotonic clock in a turn, in their order (one for each page that is queued),
-- and that of the wall clock.
pub record Readings : Type 0 where
  pub queued : ℕ → ℕ
  pub checked : ℕ
  pub sent : ℕ
  pub due : ℕ
  pub assembled : ℕ
  pub framed : ℕ
  pub wall : F64
