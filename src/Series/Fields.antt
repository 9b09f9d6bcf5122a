-- ===== src/Series/Fields.antt =====
-- The fields of a state and of a telemetry frame in `core/src/management/series.rs`.
use fly_ruler_proto.Pb.{
  TelemetryKind, PropulsorState, AircraftState, TelemetryValue, TelemetryStreamSchema,
  TelemetryField, f64_value, i64_value, bool_value,
}
use fly_ruler_proto.Base.Equality.{string_eq, Str, ◌==◌}
use fly_ruler_proto.Base.{
  map_option, and_then, ℕ, ◌∷◌, List, Bool, some, if◌then◌else◌, [], Option, false, none, ◌||◌, ◌+◌,
  true,
}
use Prim.Native.String.{String}
use fly_ruler_proto.Base.Text.{str}
use fly_ruler_proto.Series.{
  SeriesSelector, standard, propulsor, telemetry, SeriesResult, PropulsorField, F64, throttle_ratio,
  ok, err, rpm, blade_pitch_rad, unknown_standard_field, thrust_newton, torque_newton_meter,
}
use fly_ruler_proto.Store.Telemetry.{find_schema}
use fly_ruler_proto.Series.Arithmetic.{Arithmetic}

-- The path, the group, the label and the unit of a standard field.
pub record StandardField : Type 0 where
  pub path : Str
  pub group : Str
  pub label : Str
  pub unit : Option Str

abbrev entry : String → String → String → Option Str → StandardField
entry path group label unit = record {
  path = str path;
  group = str group;
  label = str label;
  unit = unit;
}

unfoldable pub standard_fields : List StandardField
standard_fields =
    entry "position.x" "position" "Position X" (some (str "m"))
    ∷ entry "position.y" "position" "Position Y" (some (str "m"))
    ∷ entry "position.z" "position" "Position Z" (some (str "m"))
    ∷ entry "velocity.x" "velocity" "Velocity X" (some (str "m/s"))
    ∷ entry "velocity.y" "velocity" "Velocity Y" (some (str "m/s"))
    ∷ entry "velocity.z" "velocity" "Velocity Z" (some (str "m/s"))
    ∷ entry "attitude.w" "attitude" "Quaternion W" none
    ∷ entry "attitude.x" "attitude" "Quaternion X" none
    ∷ entry "attitude.y" "attitude" "Quaternion Y" none
    ∷ entry "attitude.z" "attitude" "Quaternion Z" none
    ∷ entry "attitude.roll" "attitude" "Roll" (some (str "rad"))
    ∷ entry "attitude.pitch" "attitude" "Pitch" (some (str "rad"))
    ∷ entry "attitude.yaw" "attitude" "Yaw" (some (str "rad"))
    ∷ entry "angular_velocity.x" "angular_velocity" "Roll rate" (some (str "rad/s"))
    ∷ entry "angular_velocity.y" "angular_velocity" "Pitch rate" (some (str "rad/s"))
    ∷ entry "angular_velocity.z" "angular_velocity" "Yaw rate" (some (str "rad/s"))
    ∷ entry "derived.lat" "derived" "Latitude" (some (str "deg"))
    ∷ entry "derived.lon" "derived" "Longitude" (some (str "deg"))
    ∷ entry "derived.altitude" "derived" "Altitude" (some (str "m"))
    ∷ entry "derived.alpha" "derived" "Angle of attack" (some (str "rad"))
    ∷ entry "derived.beta" "derived" "Sideslip angle" (some (str "rad"))
    ∷ entry "derived.tas" "derived" "True airspeed" (some (str "m/s"))
    ∷ entry "derived.eas" "derived" "Equivalent airspeed" (some (str "m/s"))
    ∷ entry "derived.gamma" "derived" "Flight path angle" (some (str "rad"))
    ∷ entry "derived.chi" "derived" "Track angle" (some (str "rad"))
    ∷ entry "derived.ias" "derived" "Indicated airspeed" (some (str "m/s"))
    ∷ entry "derived.cas" "derived" "Calibrated airspeed" (some (str "m/s"))
    ∷ entry "derived.mach" "derived" "Mach" none
    ∷ entry "derived.ground_speed" "derived" "Ground speed" (some (str "m/s"))
    ∷ entry "derived.vertical_speed" "derived" "Vertical speed" (some (str "m/s"))
    ∷ entry "derived.dynamic_pressure" "derived" "Dynamic pressure" (some (str "Pa"))
    ∷ entry "derived.normal_load_factor" "derived" "Normal load factor" (some (str "g"))
    ∷ entry "linear_acceleration_body.x" "acceleration" "Body acceleration X" (some (str "m/s²"))
    ∷ entry "linear_acceleration_body.y" "acceleration" "Body acceleration Y" (some (str "m/s²"))
    ∷ entry "linear_acceleration_body.z" "acceleration" "Body acceleration Z" (some (str "m/s²"))
    ∷ entry "control_surfaces.aileron_left_rad" "control_surfaces" "Left aileron" (some (str "rad"))
    ∷ entry "control_surfaces.aileron_right_rad" "control_surfaces" "Right aileron"
        (some (str "rad"))
    ∷ entry "control_surfaces.elevator_rad" "control_surfaces" "Elevator" (some (str "rad"))
    ∷ entry "control_surfaces.rudder_rad" "control_surfaces" "Rudder" (some (str "rad"))
    ∷ entry "control_surfaces.flaps_left_ratio" "control_surfaces" "Left flaps" (some (str "ratio"))
    ∷ entry "control_surfaces.flaps_right_ratio" "control_surfaces" "Right flaps"
        (some (str "ratio"))
    ∷ entry "control_surfaces.spoilers_ratio" "control_surfaces" "Spoilers" (some (str "ratio"))
    ∷ []

-- The first field with the path (`iter().find`).
unfoldable pub find_field : Str → List StandardField → Option StandardField
find_field path [] = none
find_field path (f ∷ fs) = if f.path == path then some f else find_field path fs

-- The arms of `match path` in `standard_value`.
abbrev pub Arms : Type 0
Arms = List (Str × (AircraftState → Option F64))

unfoldable pub standard_arms : Arithmetic → Arms
standard_arms a =
    (str "position.x", λ s. map_option (λ v. v.x) s.position)
    ∷ (str "position.y", λ s. map_option (λ v. v.y) s.position)
    ∷ (str "position.z", λ s. map_option (λ v. v.z) s.position)
    ∷ (str "velocity.x", λ s. map_option (λ v. v.x) s.velocity)
    ∷ (str "velocity.y", λ s. map_option (λ v. v.y) s.velocity)
    ∷ (str "velocity.z", λ s. map_option (λ v. v.z) s.velocity)
    ∷ (str "attitude.w", λ s. map_option (λ v. v.w) s.attitude)
    ∷ (str "attitude.x", λ s. map_option (λ v. v.x) s.attitude)
    ∷ (str "attitude.y", λ s. map_option (λ v. v.y) s.attitude)
    ∷ (str "attitude.z", λ s. map_option (λ v. v.z) s.attitude)
    ∷ (
      str "attitude.roll",
      λ s. and_then s.attitude (λ q. map_option (λ angles. angles.0) (a.euler q)),
    )
    ∷ (
      str "attitude.pitch",
      λ s. and_then s.attitude (λ q. map_option (λ angles. angles.1) (a.euler q)),
    )
    ∷ (
      str "attitude.yaw",
      λ s. and_then s.attitude (λ q. map_option (λ angles. angles.2) (a.euler q)),
    )
    ∷ (str "angular_velocity.x", λ s. map_option (λ v. v.x) s.angular_velocity)
    ∷ (str "angular_velocity.y", λ s. map_option (λ v. v.y) s.angular_velocity)
    ∷ (str "angular_velocity.z", λ s. map_option (λ v. v.z) s.angular_velocity)
    ∷ (str "derived.lat", λ s. map_option (λ v. v.lat) s.derived)
    ∷ (str "derived.lon", λ s. map_option (λ v. v.lon) s.derived)
    ∷ (str "derived.altitude", λ s. map_option (λ v. v.altitude) s.derived)
    ∷ (str "derived.alpha", λ s. map_option (λ v. v.alpha) s.derived)
    ∷ (str "derived.beta", λ s. map_option (λ v. v.beta) s.derived)
    ∷ (str "derived.tas", λ s. map_option (λ v. v.tas) s.derived)
    ∷ (str "derived.eas", λ s. map_option (λ v. v.eas) s.derived)
    ∷ (str "derived.gamma", λ s. map_option (λ v. v.gamma) s.derived)
    ∷ (str "derived.chi", λ s. map_option (λ v. v.chi) s.derived)
    ∷ (str "derived.ias", λ s. and_then s.derived (λ v. v.ias))
    ∷ (str "derived.cas", λ s. and_then s.derived (λ v. v.cas))
    ∷ (str "derived.mach", λ s. and_then s.derived (λ v. v.mach))
    ∷ (str "derived.ground_speed", λ s. and_then s.derived (λ v. v.ground_speed))
    ∷ (str "derived.vertical_speed", λ s. and_then s.derived (λ v. v.vertical_speed))
    ∷ (str "derived.dynamic_pressure", λ s. and_then s.derived (λ v. v.dynamic_pressure))
    ∷ (str "derived.normal_load_factor", λ s. and_then s.derived (λ v. v.normal_load_factor))
    ∷ (str "linear_acceleration_body.x", λ s. map_option (λ v. v.x) s.linear_acceleration_body)
    ∷ (str "linear_acceleration_body.y", λ s. map_option (λ v. v.y) s.linear_acceleration_body)
    ∷ (str "linear_acceleration_body.z", λ s. map_option (λ v. v.z) s.linear_acceleration_body)
    ∷ (
      str "control_surfaces.aileron_left_rad",
      λ s. and_then s.control_surfaces (λ v. v.aileron_left_rad),
    )
    ∷ (
      str "control_surfaces.aileron_right_rad",
      λ s. and_then s.control_surfaces (λ v. v.aileron_right_rad),
    )
    ∷ (str "control_surfaces.elevator_rad", λ s. and_then s.control_surfaces (λ v. v.elevator_rad))
    ∷ (str "control_surfaces.rudder_rad", λ s. and_then s.control_surfaces (λ v. v.rudder_rad))
    ∷ (
      str "control_surfaces.flaps_left_ratio",
      λ s. and_then s.control_surfaces (λ v. v.flaps_left_ratio),
    )
    ∷ (
      str "control_surfaces.flaps_right_ratio",
      λ s. and_then s.control_surfaces (λ v. v.flaps_right_ratio),
    )
    ∷ (
      str "control_surfaces.spoilers_ratio",
      λ s. and_then s.control_surfaces (λ v. v.spoilers_ratio),
    )
    ∷ []

-- The first arm that matches is taken, and `_ => None` if there is none.
unfoldable pub take_arm : Str → Arms → AircraftState → Option F64
take_arm path [] s = none
take_arm path ((p, read) ∷ arms) s = if p == path then read s else take_arm path arms s

unfoldable pub standard_value : Arithmetic → AircraftState → Str → Option F64
unfolding take_arm standard_arms
standard_value a s path = take_arm path (standard_arms a) s

abbrev pub propulsor_value : PropulsorState → PropulsorField → Option F64
propulsor_value p throttle_ratio = p.throttle_ratio
propulsor_value p rpm = p.rpm
propulsor_value p blade_pitch_rad = p.blade_pitch_rad
propulsor_value p thrust_newton = p.thrust_newton
propulsor_value p torque_newton_meter = p.torque_newton_meter

-- `iter().rev().find(…)`: the last propulsor with the identifier.
unfoldable pub find_last_propulsor : Str → List PropulsorState → Option PropulsorState
find_last_propulsor id [] = none
find_last_propulsor id (p ∷ ps) = elim (find_last_propulsor id ps) [
  | some q ↦ some q
  | none ↦ if p.propulsor_id == id then some p else none
]

unfoldable pub extract_value : Arithmetic → AircraftState → SeriesSelector → Option F64
extract_value a s (standard path) = standard_value a s path
extract_value a s (propulsor id field) =
    and_then (find_last_propulsor id s.propulsors) (λ p. propulsor_value p field)
extract_value a s (telemetry stream field) = none

-- `iter().any(|(candidate, ..)| candidate == path)`.
unfoldable pub is_standard_field : Str → List StandardField → Bool
is_standard_field path [] = false
is_standard_field path (f ∷ fs) = f.path == path || is_standard_field path fs

unfoldable pub validate_selector : SeriesSelector → SeriesResult (Unit {0})
unfolding is_standard_field standard_fields
validate_selector (standard path) =
    if is_standard_field path standard_fields then ok tt else err (unknown_standard_field path)
validate_selector (propulsor id field) = ok tt
validate_selector (telemetry stream field) = ok tt

-- `iter().position(|field| field.field_id == field_id)`.
unfoldable pub field_position : Str → List TelemetryField → Option ℕ
field_position id [] = none
field_position id (f ∷ fields) =
    if f.field_id == id then some 0 else map_option (λ i. i + 1) (field_position id fields)

unfoldable pub telemetry_field :
    List TelemetryStreamSchema → Str → Str → Option (TelemetryStreamSchema × ℕ)
telemetry_field schemas stream field =
    and_then (find_schema stream schemas)
      (λ s. map_option (λ i. (s, i)) (field_position field s.fields))

-- A `bool` counts as 0 or 1.
abbrev pub numeric : Arithmetic → TelemetryKind → F64
numeric a (f64_value x) = x
numeric a (i64_value n) = a.of_i64 n
numeric a (bool_value true) = a.of_usize 1
numeric a (bool_value false) = a.of_usize 0

abbrev pub telemetry_numeric : Arithmetic → TelemetryValue → Option F64
telemetry_numeric a v = map_option (numeric a) v.kind
