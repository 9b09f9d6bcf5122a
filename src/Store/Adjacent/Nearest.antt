-- ===== src/Store/Adjacent/Nearest.antt =====
-- A binary search in one sorted vector finds the time next to the probe.
use fly_ruler_proto.Timeline.Ranges.{partition_point-le-length}
use fly_ruler_proto.Base.{
  zero, ◌≡◌, refl, ◌⊎◌, inl, inr, Bool, true, false, Option, none, some, List, [], ◌∷◌, map, arith,
  if◌then◌else◌, Bool-cases, All, Any, All-implies, ℕ, All-Any, ◌≤◌, suc, length, map_option,
  get_elem?, All-map,
}
use fly_ruler_proto.Float.{
  F64, is_finite, le, lt, le_refl, not_nan-of_finite, lt-of_not_le, le-of_not_lt, le_trans,
}
use fly_ruler_proto.Timeline.{Sorted}
use fly_ruler_proto.Store.Adjacent.{next_in, previous_in, adjacent_in, partition_point}

-- `a` is before `b`, and at or before it, in the direction of the search.
abbrev pub before : Bool → F64 → F64 → Bool
before true a b = lt a b
before false a b = lt b a

abbrev pub up_to : Bool → F64 → F64 → Bool
up_to true a b = le a b
up_to false a b = le b a

-- `o` is the time of `ts` next to the probe, strictly past it; none if no time is past it.
abbrev pub IsAdjacent : Bool → F64 → List F64 → Option F64 → Type 0
IsAdjacent forward probe ts none = All (λ t. up_to forward t probe ≡ true) ts
IsAdjacent forward probe ts (some c) =
    (before forward probe c ≡ true)
    × All (λ t. (up_to forward t probe ≡ true) ⊎ (up_to forward c t ≡ true)) ts
    × Any (λ t. t ≡ c) ts

module _ {A : Type 0} (key : A → F64) where
  cons-IsAdjacent :
      (probe : F64) (x : A) (xs : List A) (o : Option F64)
      → le (key x) probe ≡ true
      → IsAdjacent true probe (map key xs) o
      → IsAdjacent true probe (map key (x ∷ xs)) o
  cons-IsAdjacent probe x xs none h k = (h, k)
  cons-IsAdjacent probe x xs (some c) h k = (k.0, (inl h, k.1), inr k.2)

  pub next_in-IsAdjacent :
      (probe : F64) (xs : List A)
      → is_finite probe ≡ true
      → Sorted key xs
      → IsAdjacent true probe (map key xs) (next_in key probe xs)
  unfolding next_in
  next_in-IsAdjacent probe [] f s = tt
  next_in-IsAdjacent probe (x ∷ xs) f s = elim (Bool-cases (le (key x) probe)) [
    | inl h ↦ rw h (cons-IsAdjacent probe x xs _ h (next_in-IsAdjacent probe xs f s.2))
    | inr h ↦ rw h (
      lt-of_not_le (key x) probe (not_nan-of_finite (key x) s.0) (not_nan-of_finite probe f) h,
      (
        inr (le_refl (key x) s.0),
        All-map (λ t. (le t probe ≡ true) ⊎ (le (key x) t ≡ true)) key xs
            (All-implies (λ y. le (key x) (key y) ≡ true)
              (λ y. (le (key y) probe ≡ true) ⊎ (le (key x) (key y) ≡ true)) xs (λ y k. inr k) s.1),
      ),
      inl refl,
    )
  ]

  -- The last time before the probe, by recursion.
  previous_step : F64 → Option F64 → Option F64
  previous_step t none = some t
  previous_step t (some c) = some c

  abbrev before_index : ℕ → List A → Option F64
  before_index zero xs = none
  before_index (suc i) xs = map_option key (get_elem? xs i)

  before_index-cons :
      (n : ℕ) (x : A) (xs : List A)
      → n ≤ length xs
      → before_index (suc n) (x ∷ xs) ≡ previous_step (key x) (before_index n xs)
  unfolding previous_step
  before_index-cons zero x xs h = refl
  before_index-cons (suc i) x [] h = absurd (omega arith)
  before_index-cons (suc zero) x (y ∷ xs) h = refl
  before_index-cons (suc (suc i)) x (y ∷ xs) h =
      ground (arith, before_index-cons (suc i) y xs (omega arith))

  previous_in-cons :
      (probe : F64) (x : A) (xs : List A)
      → previous_in key probe (x ∷ xs)
        ≡ (if lt (key x) probe then previous_step (key x) (previous_in key probe xs) else none)
  unfolding previous_in
  previous_in-cons probe x xs =
      let p = λ (s : A). lt (key s) probe in
      ground (arith, before_index-cons (partition_point p xs) x xs (partition_point-le-length p xs))

  not_after_head :
      (probe : F64) (x : A) (xs : List A)
      → is_finite probe ≡ true
      → Sorted key (x ∷ xs)
      → lt (key x) probe ≡ false
      → All (λ t. le probe t ≡ true) (map key (x ∷ xs))
  not_after_head probe x xs f s h =
      let first =
        le-of_not_lt probe (key x) (not_nan-of_finite probe f) (not_nan-of_finite (key x) s.0) h in
      (
        first,
        All-map (λ t. le probe t ≡ true) key xs
            (All-implies (λ y. le (key x) (key y) ≡ true) (λ y. le probe (key y) ≡ true) xs
              (λ y k. le_trans probe (key x) (key y) first k) s.1),
      )

  step-IsAdjacent :
      (probe : F64) (x : A) (xs : List A) (o : Option F64)
      → Sorted key (x ∷ xs)
      → lt (key x) probe ≡ true
      → IsAdjacent false probe (map key xs) o
      → IsAdjacent false probe (map key (x ∷ xs)) (previous_step (key x) o)
  unfolding previous_step
  step-IsAdjacent probe x xs none s h k = (
    h,
    (
      inr (le_refl (key x) s.0),
      All-implies (λ t. le probe t ≡ true) (λ t. (le probe t ≡ true) ⊎ (le t (key x) ≡ true))
          (map key xs) (λ y p. inl p) k,
    ),
    inl refl,
  )
  step-IsAdjacent probe x xs (some c) s h k =
      let reached =
        All-Any (λ t. le (key x) t ≡ true) c (map key xs)
          (All-map (λ t. le (key x) t ≡ true) key xs s.1) k.2 in
      (k.0, (inr reached, k.1), inr k.2)

  pub previous_in-IsAdjacent :
      (probe : F64) (xs : List A)
      → is_finite probe ≡ true
      → Sorted key xs
      → IsAdjacent false probe (map key xs) (previous_in key probe xs)
  previous_in-IsAdjacent probe [] f s = unfold previous_in in tt
  previous_in-IsAdjacent probe (x ∷ xs) f s = elim (Bool-cases (lt (key x) probe)) [
    | inl h ↦
        rw (previous_in-cons probe x xs, h)
          (step-IsAdjacent probe x xs _ s h (previous_in-IsAdjacent probe xs f s.2))
    | inr h ↦ rw (previous_in-cons probe x xs, h) (not_after_head probe x xs f s h)
  ]

pub adjacent_in-IsAdjacent :
    {A : Type 0} (key : A → F64) (forward : Bool) (probe : F64) (xs : List A)
    → is_finite probe ≡ true
    → Sorted key xs
    → IsAdjacent forward probe (map key xs) (adjacent_in key forward probe xs)
adjacent_in-IsAdjacent key true probe xs f s = next_in-IsAdjacent key probe xs f s
adjacent_in-IsAdjacent key false probe xs f s = previous_in-IsAdjacent key probe xs f s
