-- ===== src/Store/Summary/Ends.antt =====
-- The ends of sorted vectors, and the least and greatest of a list of times.
use fly_ruler_proto.Base.Equality.{string_eq}
use fly_ruler_proto.Base.{
  ◌≡◌, refl, subst, inl, inr, true, Option, none, some, List, [], ◌∷◌, ◌++◌, map, Bool-cases,
  map_option, head?, get_last?, All, All-implies, All-map,
}
use fly_ruler_proto.Float.{
  F64, is_finite, le, total_lt, le_refl, le_trans, not_nan-of_finite, le-of_not_total_lt,
  le-of_total_lt,
}
use fly_ruler_proto.Timeline.{Sorted}
use fly_ruler_proto.Store.{AircraftId, state_time, event_time, telemetry_time, AircraftTimeSeries}
use fly_ruler_proto.Store.Summary.{option_list, min_from, max_from}

-- The times of every sample of an aircraft, and of all aircraft.
unfoldable pub sample_times : AircraftTimeSeries → List F64
sample_times v =
    map state_time v.states ++ (map event_time v.events ++ map telemetry_time v.telemetry)

unfoldable pub all_sample_times : List (AircraftId × AircraftTimeSeries) → List F64
all_sample_times [] = []
all_sample_times ((id, v) ∷ m) = sample_times v ++ all_sample_times m

-- Finite bounds in order that enclose the times, or no bounds and no times.
abbrev pub IsRange : Option (F64 × F64) → List F64 → Type 0
IsRange none ts = ts ≡ []
IsRange (some (a, b)) ts =
    (is_finite a ≡ true)
    × (is_finite b ≡ true)
    × (le a b ≡ true)
    × All (λ t. le a t ≡ true) ts
    × All (λ t. le t b ≡ true) ts

abbrev pub AllFinite : List F64 → Type 0
AllFinite ts = All (λ t. is_finite t ≡ true) ts

-- `r` is finite, and at most or at least `m` and every time of the list.
abbrev IsMinOf : F64 → List F64 → F64 → Type 0
IsMinOf m ts r = (is_finite r ≡ true) × (le r m ≡ true) × All (λ t. le r t ≡ true) ts

abbrev IsMaxOf : F64 → List F64 → F64 → Type 0
IsMaxOf m ts r = (is_finite r ≡ true) × (le m r ≡ true) × All (λ t. le t r ≡ true) ts

pub min_from_lem :
    (m : F64) (ts : List F64) → is_finite m ≡ true → AllFinite ts → IsMinOf m ts (min_from m ts)
unfolding min_from
min_from_lem m [] f h = (f, le_refl m f, tt)
min_from_lem m (t ∷ ts) f h = elim (Bool-cases (total_lt t m)) [
  | inl e ↦
      let (g, below, rest) = min_from_lem t ts h.0 h.1 in
      let first = le-of_total_lt t m (not_nan-of_finite t h.0) (not_nan-of_finite m f) e in
      subst (IsMinOf m (t ∷ ts)) (rw e) (g, le_trans (min_from t ts) t m below first, (below, rest))
  | inr e ↦
      let (g, below, rest) = min_from_lem m ts f h.1 in
      let first = le-of_not_total_lt m t (not_nan-of_finite m f) (not_nan-of_finite t h.0) e in
      subst (IsMinOf m (t ∷ ts)) (rw e) (g, below, (le_trans (min_from m ts) m t below first, rest))
]

pub max_from_lem :
    (m : F64) (ts : List F64) → is_finite m ≡ true → AllFinite ts → IsMaxOf m ts (max_from m ts)
unfolding max_from
max_from_lem m [] f h = (f, le_refl m f, tt)
max_from_lem m (t ∷ ts) f h = elim (Bool-cases (total_lt t m)) [
  | inl e ↦
      let (g, above, rest) = max_from_lem m ts f h.1 in
      let first = le-of_total_lt t m (not_nan-of_finite t h.0) (not_nan-of_finite m f) e in
      subst (IsMaxOf m (t ∷ ts)) (rw e) (g, above, (le_trans t m (max_from m ts) first above, rest))
  | inr e ↦
      let (g, above, rest) = max_from_lem t ts h.0 h.1 in
      let first = le-of_not_total_lt m t (not_nan-of_finite m f) (not_nan-of_finite t h.0) e in
      subst (IsMaxOf m (t ∷ ts)) (rw e) (g, le_trans m t (max_from t ts) first above, (above, rest))
]

module _ {A : Type 0} (key : A → F64) where
  pub head-below :
      (a : F64) (xs : List A)
      → Sorted key xs
      → All (λ t. le a t ≡ true) (option_list (map_option key (head? xs)))
      → All (λ t. le a t ≡ true) (map key xs)
  head-below a [] s h = tt
  head-below a (x ∷ xs) s h = (
    h.0,
    All-map (λ t. le a t ≡ true) key xs
        (All-implies (λ y. le (key x) (key y) ≡ true) (λ y. le a (key y) ≡ true) xs
          (λ y k. le_trans a (key x) (key y) h.0 k) s.1),
  )

  pub last-above :
      (b : F64) (xs : List A)
      → Sorted key xs
      → All (λ t. le t b ≡ true) (option_list (map_option key (get_last? xs)))
      → All (λ t. le t b ≡ true) (map key xs)
  last-above b [] s h = tt
  last-above b (x ∷ []) s h = h
  last-above b (x ∷ y ∷ xs) s h =
      let rest = last-above b (y ∷ xs) s.2 h in (le_trans (key x) (key y) b s.1.0 rest.0, rest)

  pub head-finite :
      (xs : List A) → Sorted key xs → AllFinite (option_list (map_option key (head? xs)))
  head-finite [] s = tt
  head-finite (x ∷ xs) s = (s.0, tt)

  pub last-finite :
      (xs : List A) → Sorted key xs → AllFinite (option_list (map_option key (get_last? xs)))
  last-finite [] s = tt
  last-finite (x ∷ []) s = (s.0, tt)
  last-finite (x ∷ y ∷ xs) s = last-finite (y ∷ xs) s.2

  pub no_head : (xs : List A) → option_list (map_option key (head? xs)) ≡ [] → map key xs ≡ []
  no_head [] h = refl
  no_head (x ∷ xs) h = cc

  pub no_sample_head :
      (xs : List A) → map key xs ≡ [] → option_list (map_option key (head? xs)) ≡ []
  no_sample_head [] h = refl
  no_sample_head (x ∷ xs) h = cc

  pub no_last : (xs : List A) → option_list (map_option key (get_last? xs)) ≡ [] → map key xs ≡ []
  no_last [] h = refl
  no_last (x ∷ []) h = cc
  no_last (x ∷ y ∷ xs) h = absurd (cc (no_last (y ∷ xs) h))

-- The parts of a chain and of the samples.
