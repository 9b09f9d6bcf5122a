-- ===== src/Series/Described.antt =====
-- Every selector that the catalog collects is described without a panic.
use fly_ruler_proto.Store.Telemetry.Registered.{find_schema_self}
use fly_ruler_proto.Series.Answer.{missing_field}
use fly_ruler_proto.Store.Telemetry.{validate_telemetry_schemas, find_schema}
use fly_ruler_proto.Pb.{TelemetryStreamSchema, TelemetryField}
use fly_ruler_proto.Series.Fields.{
  is_standard_field, field_position, find_field, StandardField, validate_selector, telemetry_field,
  standard_fields,
}
use fly_ruler_proto.Series.Catalog.{
  collect_fields, collect_schemas, described_items, described_item, catalog_item, telemetry_item,
}
use fly_ruler_proto.Base.Equality.{string_eq, Str, str_eq}
use fly_ruler_proto.Base.{
  [], ◌∷◌, some, suc, Bool-cases, List, ℕ, All, Any, ◌≡◌, get_elem?, Option-cases, refl, inr, true,
  map, inl, arith,
}
use fly_ruler_proto.Timeline.{value}
use fly_ruler_proto.Store.{ok}
use fly_ruler_proto.Series.{SeriesSelector, standard, propulsor, telemetry, SeriesCatalogItem}
use fly_ruler_proto.Series.Selectable.{IsSelectable, insert_selector-All, field_position-member}

collect_fields-All :
    (P : SeriesSelector → Type 0) (stream : Str) (fs : List TelemetryField)
    (out : List SeriesSelector)
    → ((f : TelemetryField) → Any (λ g. g ≡ f) fs → P (telemetry stream f.field_id))
    → All P out
    → All P (collect_fields stream fs out)
unfolding collect_fields
collect_fields-All P stream [] out p h = h
collect_fields-All P stream (f ∷ fs) out p h =
    collect_fields-All P stream fs _ (λ g m. p g (inr m))
      (insert_selector-All P (telemetry stream f.field_id) out (p f (inl refl)) h)

collect_schemas-All :
    (P : SeriesSelector → Type 0) (ss : List TelemetryStreamSchema) (out : List SeriesSelector)
    → ((s : TelemetryStreamSchema) (f : TelemetryField)
        → Any (λ t. t ≡ s) ss
        → Any (λ g. g ≡ f) s.fields
        → P (telemetry s.stream_id f.field_id))
    → All P out
    → All P (collect_schemas ss out)
unfolding collect_schemas
collect_schemas-All P [] out p h = h
collect_schemas-All P (s ∷ ss) out p h =
    collect_schemas-All P ss _ (λ t f m n. p t f (inr m) n)
      (collect_fields-All P s.stream_id s.fields out (λ f m. p s f (inl refl) m) h)

find_field_lem :
    (path : Str) (fs : List StandardField)
    → is_standard_field path fs ≡ true
    → (f : StandardField) × (find_field path fs ≡ some f)
unfolding is_standard_field find_field
find_field_lem path [] h = cc
find_field_lem path (f ∷ fs) h = elim (Bool-cases (str_eq f.path path)) [
  | inl e ↦ (f, rw e refl)
  | inr e ↦ let (g, k) = find_field_lem path fs (ground arith) in (g, rw e k)
]

field_position_bound :
    (id : Str) (fs : List TelemetryField) (i : ℕ)
    → field_position id fs ≡ some i
    → (f : TelemetryField) × (get_elem? fs i ≡ some f)
unfolding field_position
field_position_bound id [] i h = absurd (cc)
field_position_bound id (f ∷ fs) i h = elim (Bool-cases (str_eq f.field_id id)) [
  | inl e ↦ let zero_index : i ≡ 0 = ground arith in (f, rw zero_index refl)
  | inr e ↦ elim (Option-cases (field_position id fs)) [
    | inl n ↦ absurd (ground arith)
    | inr (j, n) ↦
        let (g, k) = field_position_bound id fs j n in
        let next : i ≡ suc j = ground arith in (g, rw next k)
  ]
]

module _ (schemas : List TelemetryStreamSchema) where
  pub collect_schemas-IsSelectable :
      (out : List SeriesSelector)
      → validate_telemetry_schemas schemas ≡ ok tt
      → All (IsSelectable schemas) out
      → All (IsSelectable schemas) (collect_schemas schemas out)
  unfolding validate_selector telemetry_field
  collect_schemas-IsSelectable out checked h =
      collect_schemas-All (IsSelectable schemas) schemas out
        (λ s f m n.
          let (i, e) = field_position-member schemas s.fields f n in
          (refl, rw (missing_field, telemetry_field, find_schema_self schemas s checked m, e) refl))
        h

  abbrev IsItem : SeriesSelector → Type 0
  IsItem x = (i : SeriesCatalogItem) × (described_item schemas x ≡ value i) × (i.selector ≡ x)

  standard-IsItem : (path : Str) → IsSelectable schemas (standard path) → IsItem (standard path)
  unfolding described_item catalog_item validate_selector
  standard-IsItem path h = elim (Bool-cases (is_standard_field path standard_fields)) [
    | inl e ↦
        let (f, k) = find_field_lem path standard_fields e in
        (
          record { selector = standard path; group = f.group; label = f.label; unit = f.unit },
          rw (k, catalog_item) refl,
          refl,
        )
    | inr e ↦ let g = rw (e, validate_selector) at h.0 in absurd (cc g)
  ]

  telemetry-IsItem :
      (stream field : Str)
      → IsSelectable schemas (telemetry stream field)
      → IsItem (telemetry stream field)
  unfolding described_item telemetry_field
  telemetry-IsItem stream field h = elim (Option-cases (find_schema stream schemas)) [
    | inl e ↦ let g = rw (missing_field, telemetry_field, e) at h.1 in absurd (cc g)
    | inr (schema, e) ↦ elim (Option-cases (field_position field schema.fields)) [
      | inl p ↦ let g = rw (missing_field, telemetry_field, e, p) at h.1 in absurd (cc g)
      | inr (index, p) ↦
          let (f, k) = field_position_bound field schema.fields index p in
          (
            telemetry_item stream field schema f,
            rw (described_item, telemetry_field, e, p, k) refl,
            refl,
          )
    ]
  ]

  item_lem : (x : SeriesSelector) → IsSelectable schemas x → IsItem x
  unfolding described_item catalog_item
  item_lem (standard path) h = standard-IsItem path h
  item_lem (propulsor id field) h = (_, refl, refl)
  item_lem (telemetry stream field) h = telemetry-IsItem stream field h

  pub described_items_lem :
      (xs : List SeriesSelector)
      → All (IsSelectable schemas) xs
      → (items : List SeriesCatalogItem) × (described_items schemas xs ≡ value items)
        × (map (λ i. i.selector) items ≡ xs)
  unfolding described_items
  described_items_lem [] h = ([], refl, refl)
  described_items_lem (x ∷ xs) h =
      let (i, e, s) = item_lem x h.0 in
      let (items, f, t) = described_items_lem xs h.1 in
      (i ∷ items, rw (described_items, e, f) refl, cc)
