-- ===== src/Store/Reads.antt =====
-- What the point queries of `core/src/store.rs` return, and what an append changes in them.
use fly_ruler_proto.Base.Equality.{string_eq, str_eq, str_eq_iff}
use fly_ruler_proto.Base.{
  ◌≡◌, ap, ◌≢◌, inl, inr, true, false, none, some, List, arith, if◌then◌else◌, Option-cases,
  get_last?, Bool-cases, ◌++◌, ◌∙◌, ◌∷◌, [], sym, get_last?-concat, ◌⊎◌, subst,
}
use fly_ruler_proto.Base.Dict.{lookup, lookup-insert}
use fly_ruler_proto.Float.{F64, is_finite, le}
use fly_ruler_proto.Pb.{AircraftState}
use fly_ruler_proto.Timeline.{append_sorted}
use fly_ruler_proto.Timeline.Recent.{
  up_to, last_at_or_before_lem, up_to-insert_self, up_to-insert_later,
}
use fly_ruler_proto.Store.{
  AircraftId, TimestampedState, state_time, AircraftTimeSeries, TimeSeriesStore, entry_or_default,
  set_series,
}
use fly_ruler_proto.Store.Append.{push_state, append_state}
use fly_ruler_proto.Store.Query.{get_state_at_or_before}
use fly_ruler_proto.Store.Valid.Steps.{IsValid, append_state-IsValid, entry-IsValid, lookup-IsValid}

-- The states of an aircraft at or before a time, in order; none if the aircraft is missing.
pub states_up_to : TimeSeriesStore → AircraftId → F64 → List TimestampedState
states_up_to s id t = up_to state_time t (entry_or_default s id).states

-- In a store whose vectors are sorted by finite times, a read of an aircraft at a finite time
-- returns the last of its states with a time at or before it, and none if there is no such state
-- or no such aircraft.
pub get_state_at_or_before_lem :
    (s : TimeSeriesStore) (id : AircraftId) (t : F64)
    → IsValid s
    → is_finite t ≡ true
    → get_state_at_or_before s id t ≡ get_last? (states_up_to s id t)
unfolding get_state_at_or_before states_up_to up_to
get_state_at_or_before_lem s id t h f = elim (Option-cases (lookup id s.series)) [
  | inl e ↦ rw (e, f)
  | inr (v, e) ↦
      rw (e, f) (last_at_or_before_lem state_time t v.states (lookup-IsValid s id v h e).states)
]

pub entry-set_series :
    (s : TimeSeriesStore) (id j : AircraftId) (v : AircraftTimeSeries)
    → entry_or_default (set_series s id v) j ≡ (if str_eq id j then v else entry_or_default s j)
entry-set_series s id j v = ground (arith, lookup-insert id j v s.series)

states_up_to-append :
    (s : TimeSeriesStore) (id j : AircraftId) (t u : F64) (state : AircraftState)
    → is_finite t ≡ true
    → states_up_to (append_state s id t state) j u ≡ (
        if str_eq id j
        then up_to state_time u (
            append_sorted state_time
              (record { timestamp_secs = t; state = state })
              (entry_or_default s id).states)
        else states_up_to s j u)
unfolding append_state states_up_to
states_up_to-append s id j t u state f =
    ground
      (arith, entry-set_series s id j (push_state t state (entry_or_default s id)), str_eq_iff id j)

abbrev sample_at : F64 → AircraftState → TimestampedState
sample_at t state = record { timestamp_secs = t; state = state }

-- In a store whose vectors are sorted by finite times, a read of an aircraft at the finite time of
-- a sample that was just appended for it returns that sample, also if older samples have the same
-- time.
pub get_state_at_or_before-append_state :
    (s : TimeSeriesStore) (id : AircraftId) (t : F64) (state : AircraftState)
    → IsValid s
    → is_finite t ≡ true
    → get_state_at_or_before (append_state s id t state) id t ≡ some (sample_at t state)
unfolding states_up_to
get_state_at_or_before-append_state s id t state h f =
    let old = (entry_or_default s id).states in
    let seen : states_up_to (append_state s id t state) id t
        ≡ up_to state_time t old ++ sample_at t state ∷ [] =
      states_up_to-append s id id t t state f
      ∙ ground (
        arith,
        str_eq_iff id id,
        up_to-insert_self state_time (sample_at t state) old f (entry-IsValid s id h).states,
      ) in
    get_state_at_or_before_lem (append_state s id t state) id t
      (append_state-IsValid s id t state h) f
    ∙ ap get_last? seen
    ∙ get_last?-concat (up_to state_time t old) (sample_at t state)

read_earlier :
    (s : TimeSeriesStore) (id : AircraftId) (t u : F64) (state : AircraftState)
    → IsValid s
    → is_finite t ≡ true
    → is_finite u ≡ true
    → le t u ≡ false
    → get_state_at_or_before (append_state s id t state) id u ≡ get_state_at_or_before s id u
unfolding states_up_to
read_earlier s id t u state h f g before =
    let seen : states_up_to (append_state s id t state) id u ≡ states_up_to s id u =
      states_up_to-append s id id t u state f
      ∙ ground (
        arith,
        str_eq_iff id id,
        up_to-insert_later state_time u (sample_at t state) (entry_or_default s id).states f
            (entry-IsValid s id h).states before,
      ) in
    get_state_at_or_before_lem (append_state s id t state) id u
      (append_state-IsValid s id t state h) g
    ∙ ap get_last? seen
    ∙ sym (get_state_at_or_before_lem s id u h g)

read_non_finite :
    (s : TimeSeriesStore) (id : AircraftId) (u : F64)
    → is_finite u ≡ false
    → get_state_at_or_before s id u ≡ none
unfolding get_state_at_or_before
read_non_finite s id u h = rw h

read_other :
    (s : TimeSeriesStore) (id j : AircraftId) (t u : F64) (state : AircraftState)
    → id ≢ j
    → get_state_at_or_before (append_state s id t state) j u ≡ get_state_at_or_before s j u
unfolding get_state_at_or_before append_state
read_other s id j t u state h = ground (
  arith,
  str_eq_iff id j,
  lookup-insert id j (push_state t state (entry_or_default s id)) s.series,
)

read_before :
    (s : TimeSeriesStore) (id : AircraftId) (t u : F64) (state : AircraftState)
    → IsValid s
    → is_finite t ≡ true
    → le t u ≡ false
    → get_state_at_or_before (append_state s id t state) id u ≡ get_state_at_or_before s id u
read_before s id t u state h f before = elim (Bool-cases (is_finite u)) [
  | inl g ↦ read_earlier s id t u state h f g before
  | inr g ↦ read_non_finite (append_state s id t state) id u g ∙ sym (read_non_finite s id u g)
]

different_ids : (id j : AircraftId) → str_eq id j ≡ false → id ≢ j
different_ids id j e p = cc ((str_eq_iff id j).1 p)

-- In a store whose vectors are sorted by finite times, appending a sample with a finite time t
-- changes no read of another aircraft, and no read at a time that t is not at or before.
pub get_state_at_or_before-append_state_elsewhere :
    (s : TimeSeriesStore) (id j : AircraftId) (t u : F64) (state : AircraftState)
    → IsValid s
    → is_finite t ≡ true
    → (id ≢ j) ⊎ (le t u ≡ false)
    → get_state_at_or_before (append_state s id t state) j u ≡ get_state_at_or_before s j u
get_state_at_or_before-append_state_elsewhere s id j t u state h f (inl other) =
    read_other s id j t u state other
get_state_at_or_before-append_state_elsewhere s id j t u state h f (inr before) =
    elim (Bool-cases (str_eq id j)) [
      | inl e ↦
          subst
            (λ k.
              get_state_at_or_before (append_state s id t state) k u ≡ get_state_at_or_before s k u)
            ((str_eq_iff id j).0 e) (read_before s id t u state h f before)
      | inr e ↦ read_other s id j t u state (λ p. different_ids id j e p)
    ]
