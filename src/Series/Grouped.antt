-- ===== src/Series/Grouped.antt =====
-- The groups of a query hold each selection once more, under its aircraft and with its place.
use fly_ruler_proto.Store.Summary.{str_lt}
use fly_ruler_proto.Series.{SeriesSelection}
use fly_ruler_proto.Series.Query.{push_entry, group_selections, Slot}
use fly_ruler_proto.Base.Equality.{string_eq, Str, str_eq, str_eq_iff}
use fly_ruler_proto.Base.{
  [], ◌∷◌, List, All, ℕ, ◌<◌, ◌⊎◌, length, arith, ◌+◌, Bool-cases, Any, get_elem?, inl, ◌++◌, inr,
  ◌≡◌, Any-append_right, All-append, length-append, suc, append_assoc, some, subst, refl, zero, sym,
  Any-append_left,
}

abbrev pub Groups : Type 0
Groups = List (Str × List Slot)

-- The entry says what stands at its place in the request.
abbrev pub IsPlaced : List SeriesSelection → Str → Slot → Type 0
IsPlaced selections id e =
    get_elem? selections e.0 ≡ some (record { aircraft_id = id; selector = e.1 })

-- A predicate of every entry, with its aircraft.
abbrev pub EveryEntry : (Str → Slot → Type 0) → Groups → Type 0
EveryEntry P groups = All (λ g. All (P g.0) g.1) groups

abbrev pub SomeEntry : (Str → Slot → Type 0) → Groups → Type 0
SomeEntry P groups = Any (λ g. Any (P g.0) g.1) groups

-- No group is empty.
abbrev pub Occupied : Groups → Type 0
Occupied groups = All (λ g. 0 < length g.1) groups

push_entry-EveryEntry :
    (P : Str → Slot → Type 0) (id : Str) (x : Slot) (groups : Groups)
    → P id x
    → EveryEntry P groups
    → EveryEntry P (push_entry id x groups)
unfolding push_entry
push_entry-EveryEntry P id x [] p h = ((p, tt), tt)
push_entry-EveryEntry P id x ((other, xs) ∷ groups) p h = elim (Bool-cases (str_eq other id)) [
  | inl e ↦ rw e (
    All-append (P other) xs (x ∷ []) h.0
        (subst (λ i. P i x) (sym ((str_eq_iff other id).0 e)) p, tt),
    h.1,
  )
  | inr e ↦ elim (Bool-cases (str_lt id other)) [
    | inl l ↦ rw (e, l) ((p, tt), h)
    | inr l ↦ rw (e, l) (h.0, push_entry-EveryEntry P id x groups p h.1)
  ]
]

push_entry-Occupied :
    (id : Str) (x : Slot) (groups : Groups) → Occupied groups → Occupied (push_entry id x groups)
unfolding push_entry
push_entry-Occupied id x [] h = (omega arith, tt)
push_entry-Occupied id x ((other, xs) ∷ groups) h = elim (Bool-cases (str_eq other id)) [
  | inl e ↦ rw e (omega (arith, length-append xs (x ∷ [])), h.1)
  | inr e ↦ elim (Bool-cases (str_lt id other)) [
    | inl l ↦ rw (e, l) (omega arith, h)
    | inr l ↦ rw (e, l) (h.0, push_entry-Occupied id x groups h.1)
  ]
]

push_entry-SomeEntry :
    (P : Str → Slot → Type 0) (id : Str) (x : Slot) (groups : Groups)
    → P id x ⊎ SomeEntry P groups
    → SomeEntry P (push_entry id x groups)
unfolding push_entry
push_entry-SomeEntry P id x [] (inl p) = inl (inl p)
push_entry-SomeEntry P id x [] (inr h) = absurd h
push_entry-SomeEntry P id x ((other, xs) ∷ groups) (inl p) = elim (Bool-cases (str_eq other id)) [
  | inl e ↦ rw e (
      inl (
        Any-append_right (P other) xs (x ∷ [])
          (inl (subst (λ i. P i x) (sym ((str_eq_iff other id).0 e)) p))))
  | inr e ↦ elim (Bool-cases (str_lt id other)) [
    | inl l ↦ rw (e, l) (inl (inl p))
    | inr l ↦ rw (e, l) (inr (push_entry-SomeEntry P id x groups (inl p)))
  ]
]
push_entry-SomeEntry P id x ((other, xs) ∷ groups) (inr (inl h)) =
    elim (Bool-cases (str_eq other id)) [
      | inl e ↦ rw e (inl (Any-append_left (P other) xs (x ∷ []) h))
      | inr e ↦ elim (Bool-cases (str_lt id other)) [
        | inl l ↦ rw (e, l) (inr (inl h))
        | inr l ↦ rw (e, l) (inl h)
      ]
    ]
push_entry-SomeEntry P id x ((other, xs) ∷ groups) (inr (inr h)) =
    elim (Bool-cases (str_eq other id)) [
      | inl e ↦ rw e (inr h)
      | inr e ↦ elim (Bool-cases (str_lt id other)) [
        | inl l ↦ rw (e, l) (inr (inr h))
        | inr l ↦ rw (e, l) (inr (push_entry-SomeEntry P id x groups (inr h)))
      ]
    ]

get_elem?-append :
    (before : List SeriesSelection) (x : SeriesSelection) (after : List SeriesSelection)
    → get_elem? (before ++ x ∷ after) (length before) ≡ some x
get_elem?-append [] x after = refl
get_elem?-append (y ∷ before) x after = get_elem?-append before x after

group_from :
    (before rest : List SeriesSelection) (groups : Groups)
    → EveryEntry (IsPlaced (before ++ rest)) groups
    → Occupied groups
    → EveryEntry (IsPlaced (before ++ rest)) (group_selections (length before) rest groups)
      × Occupied (group_selections (length before) rest groups)
unfolding group_selections
group_from before [] groups h o = (h, o)
group_from before (x ∷ rest) groups h o =
    let next = push_entry x.aircraft_id (length before, x.selector) groups in
    let longer : (before ++ x ∷ []) ++ rest ≡ before ++ x ∷ rest =
      append_assoc before (x ∷ []) rest in
    let count : length (before ++ x ∷ []) ≡ length before + 1 = length-append before (x ∷ []) in
    rw (longer, count) at
      (group_from (before ++ x ∷ []) rest next
        (rw longer (
          push_entry-EveryEntry (IsPlaced (before ++ x ∷ rest)) x.aircraft_id
            (length before, x.selector) groups (get_elem?-append before x rest) h))
        (push_entry-Occupied x.aircraft_id (length before, x.selector) groups o))

-- Every entry of the groups is placed, and no group is empty.
pub group_selections-IsPlaced :
    (selections : List SeriesSelection)
    → EveryEntry (IsPlaced selections) (group_selections 0 selections [])
      × Occupied (group_selections 0 selections [])
group_selections-IsPlaced selections = group_from [] selections [] tt tt

group_selections-keeps :
    (P : Str → Slot → Type 0) (index : ℕ) (rest : List SeriesSelection) (groups : Groups)
    → SomeEntry P groups
    → SomeEntry P (group_selections index rest groups)
unfolding group_selections
group_selections-keeps P index [] groups h = h
group_selections-keeps P index (x ∷ rest) groups h =
    group_selections-keeps P (index + 1) rest (push_entry x.aircraft_id (index, x.selector) groups)
      (push_entry-SomeEntry P x.aircraft_id (index, x.selector) groups (inr h))

covers_from :
    (index : ℕ) (selections : List SeriesSelection) (groups : Groups) (j : ℕ)
    → j < length selections
    → SomeEntry (λ id e. e.0 ≡ index + j) (group_selections index selections groups)
unfolding group_selections
covers_from index [] groups j h = absurd (omega arith)
covers_from index (x ∷ rest) groups zero h =
    group_selections-keeps (λ id e. e.0 ≡ index + 0) (index + 1) rest
      (push_entry x.aircraft_id (index, x.selector) groups)
      (push_entry-SomeEntry (λ id e. e.0 ≡ index + 0) x.aircraft_id (index, x.selector) groups
        (inl (omega arith)))
covers_from index (x ∷ rest) groups (suc j) h =
    let same : index + 1 + j ≡ index + suc j = omega arith in
    rw same at (
      covers_from (index + 1) rest (push_entry x.aircraft_id (index, x.selector) groups) j
        (omega arith))

-- Every place of the request is that of some entry.
pub group_selections_cover :
    (selections : List SeriesSelection) (j : ℕ)
    → j < length selections
    → SomeEntry (λ id e. e.0 ≡ j) (group_selections 0 selections [])
group_selections_cover selections j h =
    let same : 0 + j ≡ j = omega arith in rw same at (covers_from 0 selections [] j h)

-- What holds of every entry holds of one that has a property.
pub EveryEntry-SomeEntry :
    (P Q : Str → Slot → Type 0) {R : Type 0} (groups : Groups)
    → ((id : Str) (e : Slot) → P id e → Q id e → R)
    → EveryEntry P groups
    → SomeEntry Q groups
    → R
EveryEntry-SomeEntry P Q [] f h s = absurd s
EveryEntry-SomeEntry P Q ((id, []) ∷ groups) f h (inl s) = absurd s
EveryEntry-SomeEntry P Q ((id, e ∷ es) ∷ groups) f h (inl (inl q)) = f id e h.0.0 q
EveryEntry-SomeEntry P Q ((id, e ∷ es) ∷ groups) f h (inl (inr q)) =
    EveryEntry-SomeEntry P Q ((id, es) ∷ groups) f (h.0.1, h.1) (inl q)
EveryEntry-SomeEntry P Q ((id, es) ∷ groups) f h (inr s) = EveryEntry-SomeEntry P Q groups f h.1 s
