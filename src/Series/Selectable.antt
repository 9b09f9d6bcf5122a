-- ===== src/Series/Selectable.antt =====
-- The catalog never panics, and what it lists can be queried.
use fly_ruler_proto.Series.Answer.{missing_field}
use fly_ruler_proto.Store.{TimestampedState}
use fly_ruler_proto.Pb.{TelemetryStreamSchema, AircraftState, PropulsorState, TelemetryField}
use fly_ruler_proto.Series.Fields.{
  is_standard_field, StandardField, validate_selector, field_position, propulsor_value,
  standard_fields, extract_value,
}
use fly_ruler_proto.Series.Catalog.{
  collect_propulsor, insert_selector, collect_standard, collect_propulsors, collect_samples,
  insert_if, all_propulsor_fields, collect_state_selectors, selector_lt,
}
use fly_ruler_proto.Base.Equality.{string_eq, Str, str_eq, str_eq_iff}
use fly_ruler_proto.Base.{
  [], ◌∷◌, none, some, List, Bool, All, Bool-cases, Any, true, ◌≡◌, is_some_and, ℕ, false, inr, inl,
  refl, ap, arith, ◌+◌,
}
use fly_ruler_proto.Series.{SeriesSelector, standard, propulsor, ok, PropulsorField}
use fly_ruler_proto.Series.Arithmetic.{Arithmetic}

-- A query accepts the selector for an aircraft with these schemas.
abbrev pub IsSelectable : List TelemetryStreamSchema → SeriesSelector → Type 0
IsSelectable schemas x = (validate_selector x ≡ ok tt) × (missing_field schemas x ≡ none)

pub insert_selector-All :
    (P : SeriesSelector → Type 0) (x : SeriesSelector) (xs : List SeriesSelector)
    → P x
    → All P xs
    → All P (insert_selector x xs)
unfolding insert_selector
insert_selector-All P x [] p h = (p, tt)
insert_selector-All P x (y ∷ ys) p h = elim (Bool-cases (selector_lt x y)) [
  | inl e ↦ rw e (p, h)
  | inr e ↦ elim (Bool-cases (selector_lt y x)) [
    | inl l ↦ rw (e, l) (h.0, insert_selector-All P x ys p h.1)
    | inr l ↦ rw (e, l) h
  ]
]

insert_if-All :
    (P : SeriesSelector → Type 0) (present : Bool) (x : SeriesSelector) (xs : List SeriesSelector)
    → P x
    → All P xs
    → All P (insert_if present x xs)
insert_if-All P true x xs p h = insert_selector-All P x xs p h
insert_if-All P false x xs p h = h

-- Each standard field is one.
is_standard_field-member :
    (fs : List StandardField) (f : StandardField)
    → Any (λ g. g ≡ f) fs
    → is_standard_field f.path fs ≡ true
unfolding is_standard_field
is_standard_field-member [] f m = absurd m
is_standard_field-member (g ∷ fs) f (inl e) =
    let same : g.path ≡ f.path = ap (λ h. h.path) e in ground (arith, str_eq_iff g.path f.path)
is_standard_field-member (g ∷ fs) f (inr m) = ground (arith, is_standard_field-member fs f m)

collect_standard-All :
    (a : Arithmetic) (s : AircraftState) (P : SeriesSelector → Type 0) (fs : List StandardField)
    (out : List SeriesSelector)
    → ((f : StandardField) → Any (λ g. g ≡ f) fs → P (standard f.path))
    → All P out
    → All P (collect_standard a s fs out)
unfolding collect_standard
collect_standard-All a s P [] out p h = h
collect_standard-All a s P (f ∷ fs) out p h =
    collect_standard-All a s P fs _ (λ g m. p g (inr m))
      (insert_if-All P (is_some_and (extract_value a s (standard f.path)) (λ v. true))
        (standard f.path) out (p f (inl refl)) h)

collect_propulsor-All :
    (P : SeriesSelector → Type 0) (p : PropulsorState) (fs : List PropulsorField)
    (out : List SeriesSelector)
    → ((id : Str) (f : PropulsorField) → P (propulsor id f))
    → All P out
    → All P (collect_propulsor p fs out)
unfolding collect_propulsor
collect_propulsor-All P p [] out q h = h
collect_propulsor-All P p (f ∷ fs) out q h = collect_propulsor-All P p fs _ q (
    insert_if-All P (is_some_and (propulsor_value p f) (λ v. true)) (propulsor p.propulsor_id f) out
      (q p.propulsor_id f) h)

collect_propulsors-All :
    (P : SeriesSelector → Type 0) (ps : List PropulsorState) (out : List SeriesSelector)
    → ((id : Str) (f : PropulsorField) → P (propulsor id f))
    → All P out
    → All P (collect_propulsors ps out)
unfolding collect_propulsors
collect_propulsors-All P [] out q h = h
collect_propulsors-All P (p ∷ ps) out q h =
    collect_propulsors-All P ps _ q (collect_propulsor-All P p all_propulsor_fields out q h)

module _ (schemas : List TelemetryStreamSchema) where
  standard-IsSelectable :
      (f : StandardField)
      → Any (λ g. g ≡ f) standard_fields
      → IsSelectable schemas (standard f.path)
  unfolding validate_selector
  standard-IsSelectable f m =
      (rw (is_standard_field-member standard_fields f m, validate_selector) refl, refl)

  propulsor-IsSelectable : (id : Str) (f : PropulsorField) → IsSelectable schemas (propulsor id f)
  unfolding validate_selector
  propulsor-IsSelectable id f = (refl, refl)

  pub collect_samples-IsSelectable :
      (a : Arithmetic) (states : List TimestampedState) (out : List SeriesSelector)
      → All (IsSelectable schemas) out
      → All (IsSelectable schemas) (collect_samples a states out)
  unfolding collect_samples collect_state_selectors
  collect_samples-IsSelectable a [] out h = h
  collect_samples-IsSelectable a (s ∷ states) out h = collect_samples-IsSelectable a states _ (
      collect_propulsors-All (IsSelectable schemas) s.state.propulsors _ propulsor-IsSelectable (
        collect_standard-All a s.state (IsSelectable schemas) standard_fields out
          standard-IsSelectable h))

  pub field_position-member :
      (fields : List TelemetryField) (f : TelemetryField)
      → Any (λ g. g ≡ f) fields
      → (i : ℕ) × (field_position f.field_id fields ≡ some i)
  unfolding field_position
  field_position-member [] f m = absurd m
  field_position-member (g ∷ fields) f (inl e) =
      let same : g.field_id ≡ f.field_id = ap (λ h. h.field_id) e in
      (0, rw ((str_eq_iff g.field_id f.field_id).1 same) refl)
  field_position-member (g ∷ fields) f (inr m) =
      let (i, e) = field_position-member fields f m in
      elim (Bool-cases (str_eq g.field_id f.field_id)) [
        | inl h ↦ (0, rw h refl)
        | inr h ↦ (i + 1, rw (h, e) refl)
      ]
