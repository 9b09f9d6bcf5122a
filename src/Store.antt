-- ===== src/Store.antt =====
-- The data of `core/src/store.rs`: aircraft time series, and the store as a map of them.
pub mod Telemetry
pub mod Append
pub mod Ingest
pub mod Query
pub mod Valid
pub mod Schemas
pub mod Reads
pub mod Lifecycle
pub mod Frames
pub mod Pages
pub mod Summary
pub mod Adjacent
pub mod Contents
pub mod Global
mod Examples
use fly_ruler_proto.Base.Equality.{string_eq, Str}
use fly_ruler_proto.Base.{ℕ, Bool, true, false, Option, none, List, [], map, unwrap_or}
use fly_ruler_proto.Base.Dict.{lookup, insert}
use fly_ruler_proto.Float.{F64}
use fly_ruler_proto.Pb.{
  AircraftState, TelemetryStreamSchema, TelemetryFrame, AircraftSpawnInfo, DespawnInfo,
}

abbrev pub AircraftId : Type 0
AircraftId = Str

pub record AircraftConfig : Type 0 where
  pub name : Str
  pub toml_config : Str
  pub telemetry_schemas : List TelemetryStreamSchema

pub data Event : Type 0 where
  spawned : AircraftSpawnInfo → Event
  despawned : DespawnInfo → Event
  custom : Str → Event

pub record TimestampedState : Type 0 where
  pub timestamp_secs : F64
  pub state : AircraftState

pub record TimestampedEvent : Type 0 where
  pub timestamp_secs : F64
  pub event : Event

pub record TimestampedTelemetryFrame : Type 0 where
  pub timestamp_secs : F64
  pub frame : TelemetryFrame

pub record GlobalTimestampedEvent : Type 0 where
  pub aircraft_id : AircraftId
  pub timestamp_secs : F64
  pub event : Event

-- The time by which each vector is kept sorted.
abbrev pub state_time : TimestampedState → F64
state_time s = s.timestamp_secs

abbrev pub event_time : TimestampedEvent → F64
event_time s = s.timestamp_secs

abbrev pub telemetry_time : TimestampedTelemetryFrame → F64
telemetry_time s = s.timestamp_secs

pub record AircraftTimeSeries : Type 0 where
  pub states : List TimestampedState
  pub events : List TimestampedEvent
  pub telemetry : List TimestampedTelemetryFrame
  pub config : Option AircraftConfig

-- `AircraftTimeSeries::default()`.
abbrev pub empty_series : AircraftTimeSeries
empty_series = record { states = []; events = []; telemetry = []; config = none }

pub record AircraftSummary : Type 0 where
  pub id : AircraftId
  pub config : Option AircraftConfig
  pub time_range : Option (F64 × F64)
  pub state_count : ℕ
  pub event_count : ℕ
  pub telemetry_count : ℕ

pub record StorePage {ℓ} (T : Type ℓ) : Type ℓ where
  pub items : List T
  pub total : ℕ
  pub offset : ℕ
  pub limit : ℕ

-- A receipt is the monotonic clock's value when the last live state came in.
pub record TimeSeriesStore : Type 0 where
  pub series : List (AircraftId × AircraftTimeSeries)
  pub live_state_receipts : List (AircraftId × ℕ)

-- The reasons of `StoreError::InvalidData`, with the values that the message shows.
pub data InvalidData : Type 0 where
  timestamp_not_finite : InvalidData
  aircraft_not_found : AircraftId → InvalidData
  bad_stream_id : Str → InvalidData
  bad_nominal_rate : Str → InvalidData
  bad_field_id : Str → Str → InvalidData
  bad_value_type : Str → InvalidData
  unknown_stream : Str → InvalidData
  wrong_value_count : Str → ℕ → ℕ → InvalidData
  mismatched_value_type : Str → InvalidData
  column_type_mismatch : Str → InvalidData
  invalid_utf8 : InvalidData
  unknown_event_type : Str → InvalidData

pub data StoreError : Type 0 where
  io json parquet arrow decode : StoreError
  invalid_data : InvalidData → StoreError

pub data StoreResult {ℓ} (A : Type ℓ) : Type ℓ where
  ok : A → StoreResult A
  err : StoreError → StoreResult A

infixl 5 ◌>>=◌ ◌>>◌
abbrev pub ◌>>=◌ {ℓ κ} :
    {A : Type ℓ} {B : Type κ} → StoreResult A → (A → StoreResult B) → StoreResult B
ok a >>= f = f a
err e >>= f = err e

abbrev pub ◌>>◌ {ℓ} : {B : Type ℓ} → StoreResult (Unit {0}) → StoreResult B → StoreResult B
m >> k = m >>= λ _. k

abbrev pub require : Bool → InvalidData → StoreResult (Unit {0})
require true e = ok tt
require false e = err (invalid_data e)

-- `data.entry(id).or_default()`.
abbrev pub entry_or_default : TimeSeriesStore → AircraftId → AircraftTimeSeries
entry_or_default s id = unwrap_or (lookup id s.series) empty_series

abbrev pub set_series : TimeSeriesStore → AircraftId → AircraftTimeSeries → TimeSeriesStore
set_series s id v = record s { series = insert id v s.series }

-- `TimeSeriesStore::new`.
abbrev pub new_store : TimeSeriesStore
new_store = record { series = []; live_state_receipts = [] }
