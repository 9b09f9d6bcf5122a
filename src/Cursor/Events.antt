-- ===== src/Cursor/Events.antt =====
-- The frame and the events that `core/src/cursor.rs` publishes for a snapshot of the timeline.
use fly_ruler_proto.Base.Dict.{lookup}
use fly_ruler_proto.Store.Query.{get_events_range, u64_max, live_state_is_stale}
use fly_ruler_proto.Store.Global.{event_before, get_global_events_page, globalize}
use fly_ruler_proto.Store.Summary.{sort_by, get_aircraft_ids, str_lt}
use fly_ruler_proto.Cursor.Payloads.{CursorFrame, CursorEvent, CursorAircraftSnapshot}
use fly_ruler_proto.Float.{F64, lt, minus, infinity_bits}
use fly_ruler_proto.Base.Equality.{string_eq, Str}
use fly_ruler_proto.Base.{
  [], ◌∷◌, none, some, suc, if◌then◌else◌, ℕ, Option, List, Bool, take, false, ◌++◌, true,
  map_option, eqb, filter, drop, length, and_then, unwrap_or, map, ◌&&◌,
}
use fly_ruler_proto.Base.Int.{pos, ℤ}
use fly_ruler_proto.Timeline.{Outcome, value, map_outcome}
use fly_ruler_proto.Store.{
  spawned, despawned, custom, TimeSeriesStore, Event, GlobalTimestampedEvent, TimestampedEvent,
  AircraftId,
}
use fly_ruler_proto.Pb.{spawn, despawn, custom_event, Uuid, AircraftCommand}
use fly_ruler_proto.Playback.{
  live_mode, replay_paused, replay_playing, PlaybackMode, PlaybackSnapshot, resolve_aircraft_with,
}

-- `Uuid::parse_str` of the uuid crate: the bytes of an identifier, if it is one.
abbrev pub ParseUuid : Type 0
ParseUuid = Str → Option (List ℕ)

-- `value[first..last]` of an ASCII text of 32 characters, with the hyphens.
abbrev pub hyphenated : Str → Str
hyphenated s =
    take 8 s
    ++ (b'-'
        ∷ (take 4 (drop 8 s)
            ++ (b'-'
                ∷ (take 4 (drop 12 s)
                    ++ (b'-' ∷ (take 4 (drop 16 s) ++ (b'-' ∷ take 12 (drop 20 s))))))))

-- The text is an aircraft identifier of the store, of ASCII characters.
unfoldable pub hex_to_pb_uuid : ParseUuid → Str → Option Uuid
hex_to_pb_uuid parse s =
    map_option (λ bytes. record { bytes = bytes })
      (elim (parse s) [
        | some bytes ↦ some bytes
        | none ↦ if eqb (length s) 32 then parse (hyphenated s) else none
      ])

abbrev pub event_kind : Event → AircraftCommand
event_kind (spawned i) = spawn i
event_kind (despawned i) = despawn i
event_kind (custom text) = custom_event text

unfoldable pub cursor_event : ParseUuid → ℕ → GlobalTimestampedEvent → CursorEvent
cursor_event parse sequence e = record {
  sequence = sequence;
  aircraft_id = hex_to_pb_uuid parse e.aircraft_id;
  source_timestamp = e.timestamp_secs;
  info = some (record { kind = some (event_kind e.event) });
}

abbrev pub mode_number : PlaybackMode → ℤ
mode_number live_mode = pos 1
mode_number replay_paused = pos 2
mode_number replay_playing = pos 3

abbrev pub is_live : PlaybackMode → Bool
is_live live_mode = true
is_live replay_paused = false
is_live replay_playing = false

-- The loop over the sorted aircraft; those that are not spawned are left out. `now` is the clock.
unfoldable pub spawned_aircraft :
    ParseUuid
    → TimeSeriesStore
    → PlaybackSnapshot
    → ℕ
    → ℕ
    → List AircraftId
    → List CursorAircraftSnapshot
spawned_aircraft parse store snapshot stale_timeout now [] = []
spawned_aircraft parse store snapshot stale_timeout now (id ∷ ids) =
    let rest = spawned_aircraft parse store snapshot stale_timeout now ids in
    elim (resolve_aircraft_with store snapshot id) [
      | none ↦ rest
      | some resolved ↦
          if resolved.spawned
          then (let config = and_then (lookup id store.series) (λ v. v.config) in
              record {
                aircraft_id = hex_to_pb_uuid parse id;
                name = unwrap_or (map_option (λ c. c.name) config) [];
                toml_config = unwrap_or (map_option (λ c. c.toml_config) config) [];
                source_timestamp = resolved.sample.timestamp_secs;
                stale = is_live snapshot.mode && live_state_is_stale store id stale_timeout now;
                state = some resolved.sample.state;
              }
              ∷ rest)
          else rest
    ]

-- An absent identifier comes first, then the bytes decide.
abbrev pub uuid_lt : Option Uuid → Option Uuid → Bool
uuid_lt none none = false
uuid_lt none (some v) = true
uuid_lt (some u) none = false
uuid_lt (some u) (some v) = str_lt u.bytes v.bytes

unfoldable pub assemble_cursor_frame :
    ParseUuid → TimeSeriesStore → PlaybackSnapshot → ℕ → List ℕ → ℕ → ℕ → ℕ → F64 → CursorFrame
unfolding spawned_aircraft
assemble_cursor_frame parse store snapshot stale_timeout epoch sequence watermark now wall =
    record {
      server_epoch = some (record { bytes = epoch });
      frame_sequence = sequence;
      mode = mode_number snapshot.mode;
      cursor = snapshot.cursor_secs;
      lower_bound = map_option (λ b. b.0) snapshot.bounds;
      upper_bound = map_option (λ b. b.1) snapshot.bounds;
      speed = snapshot.speed;
      revision = snapshot.revision;
      event_watermark = watermark;
      generated_at = wall;
      aircraft =
          sort_by (λ l r. uuid_lt l.aircraft_id r.aircraft_id)
            (spawned_aircraft parse store snapshot stale_timeout now (get_aircraft_ids store));
    }

abbrev pub is_spawn : Event → Bool
is_spawn (spawned i) = true
is_spawn (despawned i) = false
is_spawn (custom text) = false

-- `rposition(…).unwrap_or(0)`, then `skip`: the events from the last spawn on, all if there is none.
unfoldable pub last_spawn : List TimestampedEvent → Option ℕ
last_spawn [] = none
last_spawn (e ∷ es) = elim (last_spawn es) [
  | some i ↦ some (suc i)
  | none ↦ if is_spawn e.event then some 0 else none
]

unfoldable pub baseline_of :
    TimeSeriesStore → PlaybackSnapshot → F64 → List AircraftId → List GlobalTimestampedEvent
unfolding last_spawn
baseline_of store snapshot cursor [] = []
baseline_of store snapshot cursor (id ∷ ids) =
    let rest = baseline_of store snapshot cursor ids in
    elim (resolve_aircraft_with store snapshot id) [
      | none ↦ rest
      | some resolved ↦
          if resolved.spawned
          then elim (get_events_range store id (minus infinity_bits) cursor) [
            | none ↦ rest
            | some events ↦
                map (globalize id) (drop (unwrap_or (last_spawn events) 0) events) ++ rest
          ]
          else rest
    ]

unfoldable pub baseline_events : TimeSeriesStore → PlaybackSnapshot → List GlobalTimestampedEvent
unfolding baseline_of
baseline_events store snapshot = elim snapshot.cursor_secs [
  | none ↦ []
  | some cursor ↦ sort_by event_before (baseline_of store snapshot cursor (get_aircraft_ids store))
]

unfoldable pub delta_between : TimeSeriesStore → F64 → F64 → Outcome (List GlobalTimestampedEvent)
delta_between store previous current =
    if lt current previous
    then value []
    else map_outcome (λ page. filter (λ e. lt previous e.timestamp_secs) page.items)
        (get_global_events_page store previous current 0 u64_max)

unfoldable pub delta_events :
    TimeSeriesStore → Option F64 → Option F64 → Outcome (List GlobalTimestampedEvent)
unfolding delta_between
delta_events store (some previous) (some current) = delta_between store previous current
delta_events store previous cursor = value []
