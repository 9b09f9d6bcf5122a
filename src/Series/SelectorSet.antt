-- ===== src/Series/SelectorSet.antt =====
-- The set of selectors keeps what is inserted: its order is total.
use fly_ruler_proto.Series.Catalog.{insert_selector, selector_lt, field_rank}
use fly_ruler_proto.Store.Summary.{str_lt}
use fly_ruler_proto.Base.Equality.{string_eq, Str, str_eq, str_eq_iff}
use fly_ruler_proto.Base.{
  [], ◌∷◌, List, Any, inl, ◌≡◌, Bool-cases, ◌||◌, false, inr, ◌&&◌, ap, arith, refl,
}
use fly_ruler_proto.Series.{
  SeriesSelector, standard, propulsor, telemetry, PropulsorField, throttle_ratio, rpm,
  blade_pitch_rad, thrust_newton, torque_newton_meter,
}

abbrev pub Lists : SeriesSelector → List SeriesSelector → Type 0
Lists x xs = Any (λ y. y ≡ x) xs

-- Two texts, or two selectors, neither of which is less are equal.
str_lt_total : (s t : Str) → str_lt s t ≡ false → str_lt t s ≡ false → s ≡ t
unfolding str_lt
str_lt_total [] [] h k = refl
str_lt_total [] (b ∷ t) h k = absurd (cc)
str_lt_total (a ∷ s) [] h k = absurd (cc)
str_lt_total (a ∷ s) (b ∷ t) h k = ground (arith, str_lt_total s t)

pair_total :
    (s t u w : Str)
    → (str_lt s t || (str_eq s t && str_lt u w)) ≡ false
    → (str_lt t s || (str_eq t s && str_lt w u)) ≡ false
    → (s ≡ t) × (u ≡ w)
pair_total s t u w h k =
    let first : s ≡ t = str_lt_total s t (ground arith) (ground arith) in
    (first, str_lt_total u w (ground (arith, str_eq_iff s t)) (ground (arith, str_eq_iff t s)))

rank_total : (f g : PropulsorField) → field_rank f ≡ field_rank g → f ≡ g
rank_total throttle_ratio throttle_ratio h = refl
rank_total rpm rpm h = refl
rank_total blade_pitch_rad blade_pitch_rad h = refl
rank_total thrust_newton thrust_newton h = refl
rank_total torque_newton_meter torque_newton_meter h = refl
rank_total f g h = absurd (omega arith)

selector_lt_total :
    (x y : SeriesSelector) → selector_lt x y ≡ false → selector_lt y x ≡ false → x ≡ y
unfolding selector_lt
selector_lt_total (standard p) (standard q) h k = ap standard (str_lt_total p q h k)
selector_lt_total (propulsor i f) (propulsor j g) h k =
    let same : i ≡ j = str_lt_total i j (ground arith) (ground arith) in
    let rank : field_rank f ≡ field_rank g = ground (arith, str_eq_iff i j, str_eq_iff j i) in
    let field = rank_total f g rank in cc
selector_lt_total (telemetry s f) (telemetry t g) h k =
    let same = pair_total s t f g h k in cc (same.0, same.1)
selector_lt_total x y h k = absurd (cc)

pub insert_selector_self :
    (x : SeriesSelector) (xs : List SeriesSelector) → Lists x (insert_selector x xs)
unfolding insert_selector
insert_selector_self x [] = inl refl
insert_selector_self x (y ∷ ys) = elim (Bool-cases (selector_lt x y)) [
  | inl e ↦ rw e (inl refl)
  | inr e ↦ elim (Bool-cases (selector_lt y x)) [
    | inl l ↦ rw (e, l) (inr (insert_selector_self x ys))
    | inr l ↦ rw (e, l) (inl (selector_lt_total y x l e))
  ]
]

keep_tail :
    (z y : SeriesSelector) (xs ys : List SeriesSelector)
    → Lists y (z ∷ xs)
    → (Lists y xs → Lists y ys)
    → Lists y (z ∷ ys)
keep_tail z y xs ys (inl e) f = inl e
keep_tail z y xs ys (inr m) f = inr (f m)

pub insert_selector-keeps :
    (x y : SeriesSelector) (xs : List SeriesSelector) → Lists y xs → Lists y (insert_selector x xs)
unfolding insert_selector
insert_selector-keeps x y [] m = absurd m
insert_selector-keeps x y (z ∷ xs) m = elim (Bool-cases (selector_lt x z)) [
  | inl e ↦ rw e (inr m)
  | inr e ↦ elim (Bool-cases (selector_lt z x)) [
    | inl l ↦ rw (e, l) (keep_tail z y xs (insert_selector x xs) m (insert_selector-keeps x y xs))
    | inr l ↦ rw (e, l) m
  ]
]
