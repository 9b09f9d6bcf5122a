-- ===== src/Base/Dict.antt =====
-- A hash map as an association list. The order of the list stands for the map's iteration order.
use fly_ruler_proto.Base.{inl, subst, sym, inr, ◌++◌, false}
use fly_ruler_proto.Base.Tests.{if◌then◌else◌, Bool-cases}
use fly_ruler_proto.Base.Equality.{Eq, ◌==◌}
use mathlib.Core.Path.{◌≡◌, refl}
use mathlib.Core.List.{List, [], ◌∷◌}
use mathlib.Core.Option.{Option, none, some}
use native.Mathlib.Omega.{arith}

module _ {ℓ κ} {K : Type ℓ} {V : Type κ} ⦃e : Eq K⦄ where
  -- `get`.
  unfoldable pub lookup : K → List (K × V) → Option V
  lookup key [] = none
  lookup key ((other, value) ∷ rest) = if other == key then some value else lookup key rest

  -- `insert`: the entry keeps its place, or is added at the end.
  unfoldable pub insert : K → V → List (K × V) → List (K × V)
  insert key value [] = (key, value) ∷ []
  insert key value ((other, old) ∷ rest) =
      if other == key then (other, value) ∷ rest else (other, old) ∷ insert key value rest

  -- `remove`.
  unfoldable pub remove : K → List (K × V) → List (K × V)
  remove key [] = []
  remove key ((other, old) ∷ rest) =
      if other == key then remove key rest else (other, old) ∷ remove key rest

  pub lookup-insert :
      (key other : K) (value : V) (rest : List (K × V))
      → lookup other (insert key value rest)
        ≡ (if key == other then some value else lookup other rest)
  unfolding lookup insert
  lookup-insert key other value [] = refl
  lookup-insert key other value ((there, old) ∷ rest) = ground (
    arith,
    e.decides key other,
    e.decides there key,
    e.decides there other,
    lookup-insert key other value rest,
  )

  pub lookup-remove :
      (k j : K) (m : List (K × V)) → lookup j (remove k m) ≡ (if k == j then none else lookup j m)
  unfolding lookup remove
  lookup-remove k j [] = ground arith
  lookup-remove k j ((i, w) ∷ m) =
      ground (arith, e.decides k j, e.decides i k, e.decides i j, lookup-remove k j m)

  -- A predicate of every value.
  abbrev pub AllValues {μ} : (V → Type μ) → List (K × V) → Type μ
  AllValues P [] = Unit
  AllValues P ((k, v) ∷ m) = P v × AllValues P m

  pub AllValues-lookup {μ} :
      (P : V → Type μ) (k : K) (v : V) (m : List (K × V))
      → AllValues P m
      → lookup k m ≡ some v
      → P v
  unfolding lookup
  AllValues-lookup P k v [] h e = absurd (cc)
  AllValues-lookup P k v ((j, w) ∷ m) h e = elim (Bool-cases (j == k)) [
    | inl same ↦ subst P (ground arith) h.0
    | inr other ↦ AllValues-lookup P k v m h.1 (ground arith)
  ]

  pub AllValues-insert {μ} :
      (P : V → Type μ) (k : K) (v : V) (m : List (K × V))
      → AllValues P m
      → P v
      → AllValues P (insert k v m)
  unfolding insert
  AllValues-insert P k v [] h p = (p, tt)
  AllValues-insert P k v ((j, w) ∷ m) h p = elim (Bool-cases (j == k)) [
    | inl same ↦ rw same (p, h.1)
    | inr other ↦ rw other (h.0, AllValues-insert P k v m h.1 p)
  ]

  -- No key stands twice.
  abbrev pub Distinct : List (K × V) → Type κ
  Distinct [] = Unit
  Distinct ((k, v) ∷ m) = (lookup k m ≡ none) × Distinct m

  -- No key of the second map is one of the first.
  abbrev pub Missing : List (K × V) → List (K × V) → Type κ
  Missing t [] = Unit
  Missing t ((k, v) ∷ m) = (lookup k t ≡ none) × Missing t m

  pub Distinct-insert : (k : K) (v : V) (m : List (K × V)) → Distinct m → Distinct (insert k v m)
  unfolding lookup insert
  Distinct-insert k v [] h = (refl, tt)
  Distinct-insert k v ((j, w) ∷ m) h =
      ground (arith, e.decides j k, e.decides k j, lookup-insert k j v m, Distinct-insert k v m h.1)

  pub insert_missing :
      (k : K) (v : V) (m : List (K × V)) → lookup k m ≡ none → insert k v m ≡ m ++ (k, v) ∷ []
  unfolding lookup insert
  insert_missing k v [] h = refl
  insert_missing k v ((j, w) ∷ m) h = ground (arith, insert_missing k v m)

  lookup-concat :
      (j k : K) (v : V) (m : List (K × V))
      → lookup j m ≡ none
      → (k == j) ≡ false
      → lookup j (m ++ (k, v) ∷ []) ≡ none
  unfolding lookup
  lookup-concat j k v [] h n = ground arith
  lookup-concat j k v ((i, w) ∷ m) h n = ground (arith, lookup-concat j k v m)

  pub Missing-concat :
      (k : K) (v : V) (t m : List (K × V))
      → Missing t m
      → lookup k m ≡ none
      → Missing (t ++ (k, v) ∷ []) m
  unfolding lookup
  Missing-concat k v t [] h n = tt
  Missing-concat k v t ((j, w) ∷ m) h n =
      ground
        (arith, e.decides j k, e.decides k j, lookup-concat j k v t h.0, Missing-concat k v t m h.1)

  pub Missing-nil : (m : List (K × V)) → Missing [] m
  unfolding lookup
  Missing-nil [] = tt
  Missing-nil ((k, v) ∷ m) = (refl, Missing-nil m)

  -- A predicate of every entry, its key and its value.
  abbrev pub AllEntries : (K → V → Type 0) → List (K × V) → Type 0
  AllEntries P [] = Unit
  AllEntries P ((k, v) ∷ m) = P k v × AllEntries P m

  pub AllEntries-lookup :
      (P : K → V → Type 0) (k : K) (v : V) (m : List (K × V))
      → AllEntries P m
      → lookup k m ≡ some v
      → P k v
  unfolding lookup
  AllEntries-lookup P k v [] h eq = absurd (cc)
  AllEntries-lookup P k v ((j, w) ∷ m) h eq = elim (Bool-cases (j == k)) [
    | inl same ↦ subst (P k) (ground arith) (subst (λ x. P x w) ((e.decides j k).0 same) h.0)
    | inr other ↦ AllEntries-lookup P k v m h.1 (ground arith)
  ]

  pub AllEntries-insert :
      (P : K → V → Type 0) (k : K) (v : V) (m : List (K × V))
      → AllEntries P m
      → P k v
      → AllEntries P (insert k v m)
  unfolding insert
  AllEntries-insert P k v [] h p = (p, tt)
  AllEntries-insert P k v ((j, w) ∷ m) h p = elim (Bool-cases (j == k)) [
    | inl same ↦ rw same (subst (λ x. P x v) (sym ((e.decides j k).0 same)) p, h.1)
    | inr other ↦ rw other (h.0, AllEntries-insert P k v m h.1 p)
  ]

  pub AllEntries-remove :
      (P : K → V → Type 0) (k : K) (m : List (K × V)) → AllEntries P m → AllEntries P (remove k m)
  unfolding remove
  AllEntries-remove P k [] h = tt
  AllEntries-remove P k ((j, w) ∷ m) h = elim (Bool-cases (j == k)) [
    | inl same ↦ rw same (AllEntries-remove P k m h.1)
    | inr other ↦ rw other (h.0, AllEntries-remove P k m h.1)
  ]

  pub AllEntries-implies :
      (P Q : K → V → Type 0) (m : List (K × V))
      → ((k : K) (v : V) → P k v → Q k v)
      → AllEntries P m
      → AllEntries Q m
  AllEntries-implies P Q [] f h = tt
  AllEntries-implies P Q ((k, v) ∷ m) f h = (f k v h.0, AllEntries-implies P Q m f h.1)
