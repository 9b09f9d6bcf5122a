-- ===== src/Series/Collected.antt =====
-- The two passes over an aircraft collect, in each slot, the points of its selection.
use fly_ruler_proto.Float.{le}
use fly_ruler_proto.Store.Append.{schemas_of}
use fly_ruler_proto.Series.Fields.{extract_value, telemetry_field}
use fly_ruler_proto.Pb.{TelemetryStreamSchema}
use fly_ruler_proto.Store.{
  TimestampedState, AircraftTimeSeries, TimestampedTelemetryFrame, state_time, telemetry_time,
}
use fly_ruler_proto.Timeline.{range_filter}
use fly_ruler_proto.Series.Answer.{state_points, frame_points, points_of, telemetry_points}
use fly_ruler_proto.Series.Query.{
  push_frames, push_state_values, visit_states, visit_telemetry, Slot, finite_point,
  push_telemetry_values, frame_value,
}
use fly_ruler_proto.Base.Equality.{string_eq}
use fly_ruler_proto.Base.{
  [], ◌∷◌, none, some, List, Option, ℕ, length, ◌≤◌, map, ◌≡◌, arith, ◌+◌, ◌++◌, Option-cases, sym,
  append-nil, inl, length-append, ◌∙◌, inr, append_assoc, length-filter-le, ◌&&◌, refl,
}
use fly_ruler_proto.Series.{SeriesSelector, standard, propulsor, telemetry, F64, Point}
use fly_ruler_proto.Series.Arithmetic.{Arithmetic}

module _ (a : Arithmetic) where
  push_state_values_lem :
      (s : TimestampedState) (g : Slot → List Point) (entries : List Slot)
      → push_state_values a s entries (map g entries)
        ≡ map (λ e. g e ++ finite_point s.timestamp_secs (extract_value a s.state e.1)) entries
  unfolding push_state_values
  push_state_values_lem s g [] = refl
  push_state_values_lem s g (e ∷ entries) = rw (push_state_values_lem s g entries) refl

  pub visit_states_lem :
      (states : List TimestampedState) (g : Slot → List Point) (entries : List Slot)
      → visit_states a states entries (map g entries)
        ≡ map (λ e. g e ++ state_points a e.1 states) entries
  unfolding visit_states state_points
  visit_states_lem [] g entries = simp (append-nil)
  visit_states_lem (s ∷ states) g entries = rw (push_state_values_lem s g entries) (
      visit_states_lem states
        (λ e. g e ++ finite_point s.timestamp_secs (extract_value a s.state e.1)) entries
      ∙ simp (append_assoc))

  push_frames_lem :
      (schema : TelemetryStreamSchema) (index : ℕ) (frames : List TimestampedTelemetryFrame)
      (p : List Point)
      → push_frames a schema index frames p ≡ p ++ frame_points a schema index frames
  unfolding push_frames frame_points
  push_frames_lem schema index [] p = simp (append-nil)
  push_frames_lem schema index (s ∷ frames) p =
      push_frames_lem schema index frames
        (p ++ finite_point s.timestamp_secs (frame_value a schema index s))
      ∙ append_assoc p _ _

  push_telemetry_values_lem :
      (schemas : List TelemetryStreamSchema) (frames : List TimestampedTelemetryFrame)
      (x : SeriesSelector) (p : List Point)
      → push_telemetry_values a schemas frames x p ≡ p ++ telemetry_points a schemas x frames
  push_telemetry_values_lem schemas frames (standard path) p = sym (append-nil p)
  push_telemetry_values_lem schemas frames (propulsor id field) p = sym (append-nil p)
  push_telemetry_values_lem schemas frames (telemetry stream field) p =
      elim (Option-cases (telemetry_field schemas stream field)) [
        | inl e ↦ rw (e, push_telemetry_values, telemetry_points) (sym (append-nil p))
        | inr ((schema, index), e) ↦
            rw (e, push_telemetry_values, telemetry_points) (push_frames_lem schema index frames p)
      ]

  pub visit_telemetry_lem :
      (schemas : List TelemetryStreamSchema) (frames : List TimestampedTelemetryFrame)
      (g : Slot → List Point) (entries : List Slot)
      → visit_telemetry a schemas frames entries (map g entries)
        ≡ map (λ e. g e ++ telemetry_points a schemas e.1 frames) entries
  unfolding visit_telemetry
  visit_telemetry_lem schemas frames g [] = refl
  visit_telemetry_lem schemas frames g (e ∷ entries) =
      rw (push_telemetry_values_lem schemas frames e.1 (g e))
        (rw (visit_telemetry_lem schemas frames g entries) refl)

  length-finite_point : (t : F64) (x : Option F64) → length (finite_point t x) ≤ 1
  length-finite_point t none = omega arith
  length-finite_point t (some x) = ground arith

  length-state_points :
      (x : SeriesSelector) (states : List TimestampedState)
      → length (state_points a x states) ≤ length states
  unfolding state_points
  length-state_points x [] = omega arith
  length-state_points x (s ∷ states) =
      let first = finite_point s.timestamp_secs (extract_value a s.state x) in
      omega (
        arith,
        length-append first (state_points a x states),
        length-finite_point s.timestamp_secs (extract_value a s.state x),
        length-state_points x states,
      )

  length-frame_points :
      (schema : TelemetryStreamSchema) (index : ℕ) (frames : List TimestampedTelemetryFrame)
      → length (frame_points a schema index frames) ≤ length frames
  unfolding frame_points
  length-frame_points schema index [] = omega arith
  length-frame_points schema index (s ∷ frames) =
      let first = finite_point s.timestamp_secs (frame_value a schema index s) in
      omega (
        arith,
        length-append first (frame_points a schema index frames),
        length-finite_point s.timestamp_secs (frame_value a schema index s),
        length-frame_points schema index frames,
      )

  length-telemetry_points :
      (schemas : List TelemetryStreamSchema) (x : SeriesSelector)
      (frames : List TimestampedTelemetryFrame)
      → length (telemetry_points a schemas x frames) ≤ length frames
  length-telemetry_points schemas (standard path) frames = omega arith
  length-telemetry_points schemas (propulsor id field) frames = omega arith
  length-telemetry_points schemas (telemetry stream field) frames =
      elim (Option-cases (telemetry_field schemas stream field)) [
        | inl e ↦ rw (e, telemetry_points) (omega arith)
        | inr ((schema, index), e) ↦
            rw (e, telemetry_points) (length-frame_points schema index frames)
      ]

  -- A selection has at most one point for each state and frame of the aircraft.
  pub length-points_of :
      (v : AircraftTimeSeries) (start end : F64) (x : SeriesSelector)
      → length (points_of a v start end x) ≤ length v.states + length v.telemetry
  unfolding points_of range_filter
  length-points_of v start end x =
      let states = range_filter state_time start end v.states in
      let frames = range_filter telemetry_time start end v.telemetry in
      omega (
        arith,
        length-append (state_points a x states) (telemetry_points a (schemas_of v) x frames),
        length-state_points x states,
        length-telemetry_points (schemas_of v) x frames,
        length-filter-le (λ s. le start (state_time s) && le (state_time s) end) v.states,
        length-filter-le (λ s. le start (telemetry_time s) && le (telemetry_time s) end)
            v.telemetry,
      )
