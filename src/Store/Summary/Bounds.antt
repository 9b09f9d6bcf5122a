-- ===== src/Store/Summary/Bounds.antt =====
-- The time bounds of one aircraft and of the store enclose every sample.
use fly_ruler_proto.Base.Equality.{string_eq}
use fly_ruler_proto.Base.{
  ◌≡◌, refl, subst, true, Option, none, some, List, [], ◌∷◌, ◌++◌, append-nil, append_assoc, All,
  All-append, All-implies, All-left, All-right,
}
use fly_ruler_proto.Base.Dict.{AllValues}
use fly_ruler_proto.Float.{F64, le, le_trans, fmin, fmax, fmin_lem, fmax_lem}
use fly_ruler_proto.Store.{
  AircraftId, state_time, event_time, telemetry_time, AircraftTimeSeries, TimeSeriesStore,
}
use fly_ruler_proto.Store.Valid.Steps.{IsValidSeries, IsValid}
use fly_ruler_proto.Store.Summary.{
  min_from, max_from, min_by_total, max_by_total, first_times, last_times, both,
  aircraft_time_range, widen, time_bounds_from, active_time_bounds,
}
use fly_ruler_proto.Store.Summary.Ends.{
  sample_times, all_sample_times, IsRange, AllFinite, min_from_lem, max_from_lem, head-below,
  last-above, head-finite, last-finite, no_head, no_sample_head, no_last,
}

append-nil_parts : (xs ys : List F64) → xs ++ ys ≡ [] → (xs ≡ []) × (ys ≡ [])
append-nil_parts [] ys h = (refl, h)
append-nil_parts (x ∷ xs) ys h = cc

-- The least of the first times and the greatest of the last ones enclose the samples.
IsRange-of_ends :
    (fs ls ts : List F64)
    → AllFinite fs
    → AllFinite ls
    → (fs ≡ [] → ts ≡ [])
    → (ls ≡ [] → ts ≡ [])
    → (ts ≡ [] → fs ≡ [])
    → ((a : F64) → All (λ t. le a t ≡ true) fs → All (λ t. le a t ≡ true) ts)
    → ((b : F64) → All (λ t. le t b ≡ true) ls → All (λ t. le t b ≡ true) ts)
    → IsRange (both (min_by_total fs) (max_by_total ls)) ts
unfolding min_by_total max_by_total
IsRange-of_ends [] ls ts f g p q r lower upper = p refl
IsRange-of_ends (x ∷ fs) [] ts f g p q r lower upper = q refl
IsRange-of_ends (x ∷ fs) (y ∷ ls) [] f g p q r lower upper = absurd (cc (r refl))
IsRange-of_ends (x ∷ fs) (y ∷ ls) (t ∷ ts) f g p q r lower upper =
    let least = min_from_lem x fs f.0 f.1 in
    let greatest = max_from_lem y ls g.0 g.1 in
    let below = lower (min_from x fs) (least.1, least.2) in
    let above = upper (max_from y ls) (greatest.1, greatest.2) in
    (least.0, greatest.0, le_trans (min_from x fs) t (max_from y ls) below.0 above.0, below, above)

module _ (v : AircraftTimeSeries) where
  chain_nil :
      {a b c : List F64} (xs ys zs : List F64)
      → (xs ≡ [] → a ≡ [])
      → (ys ≡ [] → b ≡ [])
      → (zs ≡ [] → c ≡ [])
      → xs ++ (ys ++ zs) ≡ []
      → a ++ (b ++ c) ≡ []
  chain_nil xs ys zs f g k h =
      let (p, q) = append-nil_parts xs (ys ++ zs) h in
      let (r, s) = append-nil_parts ys zs q in rw (f p, g r, k s)

  no_first : first_times v ≡ [] → sample_times v ≡ []
  unfolding sample_times
  no_first h =
      chain_nil _ _ _ (no_head state_time v.states) (no_head event_time v.events)
        (no_head telemetry_time v.telemetry) h

  no_final : last_times v ≡ [] → sample_times v ≡ []
  unfolding sample_times
  no_final h =
      chain_nil _ _ _ (no_last state_time v.states) (no_last event_time v.events)
        (no_last telemetry_time v.telemetry) h

  no_sample : sample_times v ≡ [] → first_times v ≡ []
  unfolding sample_times
  no_sample h =
      chain_nil _ _ _ (no_sample_head state_time v.states) (no_sample_head event_time v.events)
        (no_sample_head telemetry_time v.telemetry) h

  chain-All :
      (P : F64 → Type 0) (xs ys zs a b c : List F64)
      → (All P xs → All P a)
      → (All P ys → All P b)
      → (All P zs → All P c)
      → All P (xs ++ (ys ++ zs))
      → All P (a ++ (b ++ c))
  chain-All P xs ys zs a b c f g k h =
      let rest = All-right P xs (ys ++ zs) h in
      All-append P a (b ++ c) (f (All-left P xs (ys ++ zs) h))
        (All-append P b c (g (All-left P ys zs rest)) (k (All-right P ys zs rest)))

  module _ (h : IsValidSeries v) where
    first_below :
        (a : F64)
        → All (λ t. le a t ≡ true) (first_times v)
        → All (λ t. le a t ≡ true) (sample_times v)
    unfolding sample_times
    first_below a =
        chain-All (λ t. le a t ≡ true) _ _ _ _ _ _ (head-below state_time a v.states h.states)
          (head-below event_time a v.events h.events)
          (head-below telemetry_time a v.telemetry h.telemetry)

    last_above :
        (b : F64)
        → All (λ t. le t b ≡ true) (last_times v)
        → All (λ t. le t b ≡ true) (sample_times v)
    unfolding sample_times
    last_above b =
        chain-All (λ t. le t b ≡ true) _ _ _ _ _ _ (last-above state_time b v.states h.states)
          (last-above event_time b v.events h.events)
          (last-above telemetry_time b v.telemetry h.telemetry)

    first_finite : AllFinite (first_times v)
    first_finite = All-append _ _ _ (head-finite state_time v.states h.states) (
        All-append _ _ _ (head-finite event_time v.events h.events)
          (head-finite telemetry_time v.telemetry h.telemetry))

    last_finite : AllFinite (last_times v)
    last_finite = All-append _ _ _ (last-finite state_time v.states h.states) (
        All-append _ _ _ (last-finite event_time v.events h.events)
          (last-finite telemetry_time v.telemetry h.telemetry))

    pub aircraft_time_range-IsRange : IsRange (aircraft_time_range v) (sample_times v)
    unfolding aircraft_time_range
    aircraft_time_range-IsRange =
        IsRange-of_ends (first_times v) (last_times v) (sample_times v) first_finite last_finite
          no_first no_final no_sample first_below last_above

-- Bounds of two lists of times enclose both lists once they are widened.
widen-IsRange :
    (o r : Option (F64 × F64)) (ts us : List F64)
    → IsRange o ts
    → IsRange r us
    → IsRange (widen o r) (ts ++ us)
widen-IsRange none none ts us h k = rw (h, k)
widen-IsRange (some (a, b)) none ts us h k = rw (k, append-nil ts) h
widen-IsRange none (some (c, d)) ts us h k = rw h k
widen-IsRange (some (a, b)) (some (c, d)) ts us h k =
    let lower = fmin_lem a c h.0 k.0 in
    let upper = fmax_lem b d h.1 k.1 in
    let lo = fmin a c in
    let hi = fmax b d in
    (
      lower.0,
      upper.0,
      le_trans lo a hi lower.1 (le_trans a b hi h.2 upper.1),
      All-append (λ t. le lo t ≡ true) ts us
          (All-implies _ _ ts (λ t p. le_trans lo a t lower.1 p) h.3)
          (All-implies _ _ us (λ t p. le_trans lo c t lower.2 p) k.3),
      All-append (λ t. le t hi ≡ true) ts us
          (All-implies _ _ ts (λ t p. le_trans t b hi p upper.1) h.4)
          (All-implies _ _ us (λ t p. le_trans t d hi p upper.2) k.4),
    )

time_bounds_from-IsRange :
    (o : Option (F64 × F64)) (ts : List F64) (m : List (AircraftId × AircraftTimeSeries))
    → AllValues IsValidSeries m
    → IsRange o ts
    → IsRange (time_bounds_from o m) (ts ++ all_sample_times m)
unfolding time_bounds_from all_sample_times
time_bounds_from-IsRange o ts [] v h = rw (append-nil ts) h
time_bounds_from-IsRange o ts ((id, w) ∷ m) v h =
    let wider =
      widen-IsRange o (aircraft_time_range w) ts (sample_times w) h
        (aircraft_time_range-IsRange w v.0) in
    subst (IsRange (time_bounds_from (widen o (aircraft_time_range w)) m))
      (append_assoc ts (sample_times w) (all_sample_times m))
      (time_bounds_from-IsRange (widen o (aircraft_time_range w)) (ts ++ sample_times w) m v.1
        wider)

-- In a store whose vectors are sorted by finite times, the time bounds are finite and in order and
-- enclose the time of every state, event and telemetry frame of every aircraft; there are none
-- only if there is no sample.
pub active_time_bounds-IsRange :
    (s : TimeSeriesStore) → IsValid s → IsRange (active_time_bounds s) (all_sample_times s.series)
unfolding active_time_bounds
active_time_bounds-IsRange s h = time_bounds_from-IsRange none [] s.series h refl
