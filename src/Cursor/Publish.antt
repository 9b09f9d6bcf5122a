-- ===== src/Cursor/Publish.antt =====
-- How the publisher of `core/src/cursor.rs` numbers and queues pages of events for a subscriber.
use fly_ruler_proto.Cursor.Subscriber.{SubscriberState, Crates, PendingEvents, Readings}
use fly_ruler_proto.Base.Text.{str}
use fly_ruler_proto.Float.{F64, lt}
use fly_ruler_proto.Cursor.Payloads.{CursorEventBatch, CursorEvent, CursorReset}
use fly_ruler_proto.Playback.{PlaybackSnapshot}
use fly_ruler_proto.Cursor.Events.{ParseUuid, baseline_events, cursor_event, delta_events}
use fly_ruler_proto.Store.{TimeSeriesStore, GlobalTimestampedEvent}
use fly_ruler_proto.Base.{
  [], ◌∷◌, none, some, zero, suc, if◌then◌else◌, true, false, Option, Bool, ℕ, List, not, ◌++◌, leb,
  max, eqb, length, ◌&&◌, ◌||◌, ◌+◌, ◌%◌, take, drop, ◌*◌, ◌^◌,
}
use fly_ruler_proto.Base.Int.{pos}
use fly_ruler_proto.Timeline.{Outcome, value, map_outcome}
use fly_ruler_proto.Cursor.{done, invalid, CursorResult, Message, div_ceil, encode_cursor_chunks}

-- `wrapping_add(1).max(1)`.
abbrev pub next_sequence : ℕ → ℕ
next_sequence n = max ((n + 1) % 2 ^ 64) 1

abbrev pub complete_page : PendingEvents → SubscriberState → SubscriberState
complete_page p s =
    if p.final_page then record s { last_revision = some p.revision; last_cursor = p.cursor } else s

-- `pop_front_if` the session has acknowledged the page.
unfoldable pub acknowledge : ℕ → SubscriberState → SubscriberState
acknowledge ack s = elim s.pending [
  | [] ↦ s
  | p ∷ ps ↦ if leb p.sequence ack then complete_page p (record s { pending = ps }) else s
]

abbrev pub is_at : Option ℕ → ℕ → Bool
is_at none n = false
is_at (some m) n = eqb m n

abbrev pub is_reversed : Option F64 → Option F64 → Bool
is_reversed (some previous) (some current) = lt current previous
is_reversed previous current = false

-- A subscriber that is new, or whose timeline was changed or went back, gets everything again.
abbrev pub needs_baseline : SubscriberState → PlaybackSnapshot → Bool
needs_baseline s snapshot =
    not (is_at s.last_revision snapshot.revision) || is_reversed s.last_cursor snapshot.cursor_secs

abbrev pub page_size : ℕ
page_size = 32

abbrev pub page_count : ℕ → ℕ
page_count events = div_ceil (max events 1) page_size

abbrev pub number_events : ParseUuid → ℕ → ℕ → List GlobalTimestampedEvent → List CursorEvent
number_events parse batch index [] = []
number_events parse batch index (e ∷ events) =
    cursor_event parse ((batch * 2 ^ 32) % 2 ^ 64 + index) e
    ∷ number_events parse batch (index + 1) events

abbrev pub has_revision : Option ℕ → Bool
has_revision none = false
has_revision (some r) = true

abbrev pub or_empty : CursorResult (List Message) → List Message
or_empty (done messages) = messages
or_empty (invalid e) = []

module _ (x : Crates) (epoch : List ℕ) (snapshot : PlaybackSnapshot) (baseline : Bool)
    (events : List GlobalTimestampedEvent) (at : ℕ → ℕ) where
  abbrev pub pages : ℕ
  pages = page_count (length events)

  abbrev pub event_batch_of : ℕ → ℕ → CursorEventBatch
  event_batch_of sequence index = record {
    server_epoch = some (record { bytes = epoch });
    event_sequence = sequence;
    revision = snapshot.revision;
    baseline = baseline && eqb index 0;
    baseline_complete = eqb (index + 1) pages;
    events =
        number_events x.parse_uuid sequence 0 (take page_size (drop (index * page_size) events));
  }

  abbrev pub reset_of : SubscriberState → CursorReset
  reset_of s = record {
    server_epoch = some (record { bytes = epoch });
    revision = snapshot.revision;
    cursor = snapshot.cursor_secs;
    reason = if has_revision s.last_revision then str "timeline_revision" else str "initial_sync";
  }

  abbrev pub reset_messages_of : SubscriberState → ℕ → ℕ → List Message
  reset_messages_of s sequence index =
      if baseline && eqb index 0
      then or_empty (encode_cursor_chunks epoch (pos 3) sequence (x.encode_reset (reset_of s)))
      else []

  abbrev pub event_page : SubscriberState → ℕ → ℕ → List Message → PendingEvents
  event_page s sequence index messages = record {
    sequence = sequence;
    revision = snapshot.revision;
    cursor = snapshot.cursor_secs;
    messages = messages;
    reset_messages = reset_messages_of s sequence index;
    last_sent = at index;
    attempts = 0;
    final_page = eqb (index + 1) pages;
  }

  -- The loop over the pages that are left; a page that cannot be encoded ends it with none queued.
  unfoldable pub queue_pages : ℕ → ℕ → SubscriberState → SubscriberState
  queue_pages zero index s = s
  queue_pages (suc rounds) index s =
      let sequence = next_sequence s.next_event_sequence in
      let numbered = record s { next_event_sequence = sequence } in
      elim (encode_cursor_chunks epoch (pos 2) sequence
        (x.encode_batch (event_batch_of sequence index))) [
          | invalid e ↦ record numbered { pending = [] }
          | done messages ↦
              queue_pages rounds (index + 1) (record numbered {
                pending = s.pending ++ event_page s sequence index messages ∷ [];
              })
        ]

-- `state.pending.is_empty()`.
abbrev pub is_idle : SubscriberState → Bool
is_idle s = eqb (length s.pending) 0

abbrev pub events_for :
    TimeSeriesStore
    → PlaybackSnapshot
    → Bool
    → SubscriberState
    → Outcome (List GlobalTimestampedEvent)
events_for store snapshot true s = value (baseline_events store snapshot)
events_for store snapshot false s = delta_events store s.last_cursor snapshot.cursor_secs

abbrev pub queue_events :
    Crates
    → List ℕ
    → PlaybackSnapshot
    → Bool
    → Readings
    → SubscriberState
    → List GlobalTimestampedEvent
    → SubscriberState
queue_events x epoch snapshot baseline t s events =
    if baseline || not (eqb (length events) 0)
    then queue_pages x epoch snapshot baseline events t.queued (page_count (length events)) 0 s
    else record s { last_revision = some snapshot.revision; last_cursor = snapshot.cursor_secs }

-- New events are looked for only when every page was acknowledged.
unfoldable pub refill :
    Crates
    → TimeSeriesStore
    → List ℕ
    → PlaybackSnapshot
    → Readings
    → SubscriberState
    → Outcome SubscriberState
unfolding queue_pages
refill x store epoch snapshot t s =
    if is_idle s
    then map_outcome (queue_events x epoch snapshot (needs_baseline s snapshot) t s)
        (events_for store snapshot (needs_baseline s snapshot) s)
    else value s
