-- ===== src/Timeline/Recent.antt =====
-- The newest sample at or before a time, and how an insertion changes it.
use fly_ruler_proto.Base.{
  ℕ, zero, suc, ◌≤◌, ◌≡◌, refl, Bool, true, false, Option, none, List, [], ◌∷◌, ◌++◌, arith,
  if◌then◌else◌, length, get_elem?, take, get_last?, filter, All,
}
use fly_ruler_proto.Float.{
  F64, is_finite, le, le_refl, le_trans, le-of_lt, not_nan-of_finite, lt-of_not_le,
}
use fly_ruler_proto.Timeline.{partition_point, append_sorted, last_at_or_before, Sorted}
use fly_ruler_proto.Timeline.Order.{stable_insert, append_sorted-stable_insert}
use fly_ruler_proto.Timeline.Ranges.{
  partition_point-le-length, filter_nothing, newer_than_head, take-partition_point,
}

abbrev at_index {ℓ} : {A : Type ℓ} → ℕ → List A → Option A
at_index zero xs = none
at_index (suc i) xs = get_elem? xs i

module _ {A : Type 0} where
  at_index-take : (n : ℕ) (xs : List A) → n ≤ length xs → at_index n xs ≡ get_last? (take n xs)
  at_index-take zero xs h = refl
  at_index-take (suc n) [] h = absurd (omega arith)
  at_index-take (suc zero) (x ∷ xs) h = refl
  at_index-take (suc (suc n)) (x ∷ []) h = absurd (omega arith)
  at_index-take (suc (suc n)) (x ∷ y ∷ xs) h = at_index-take (suc n) (y ∷ xs) (omega arith)

  All-filter : (p : A → Bool) (xs : List A) → All (λ x. p x ≡ true) (filter p xs)
  All-filter p [] = tt
  All-filter p (x ∷ xs) = ground (arith, All-filter p xs)

module _ {A : Type 0} (key : A → F64) where
  unfoldable pub up_to : F64 → List A → List A
  up_to t xs = filter (λ s. le (key s) t) xs

  -- Binary search finds the last sample of the linear filter.
  pub last_at_or_before_lem :
      (t : F64) (xs : List A) → Sorted key xs → last_at_or_before key t xs ≡ get_last? (up_to t xs)
  unfolding last_at_or_before up_to
  last_at_or_before_lem t xs s =
      let n = partition_point (λ s. le (key s) t) xs in
      ground (
        arith,
        at_index-take n xs (partition_point-le-length (λ s. le (key s) t) xs),
        take-partition_point key t xs s,
      )

  stable_insert_last :
      (x : A) (xs : List A)
      → All (λ y. le (key y) (key x) ≡ true) xs
      → stable_insert key x xs ≡ xs ++ x ∷ []
  unfolding stable_insert
  stable_insert_last x [] h = refl
  stable_insert_last x (y ∷ ys) h = ground (arith, stable_insert_last x ys h.1)

  up_to-stable_insert :
      (t : F64) (x : A) (xs : List A)
      → is_finite (key x) ≡ true
      → Sorted key xs
      → up_to t (stable_insert key x xs)
        ≡ (if le (key x) t then stable_insert key x (up_to t xs) else up_to t xs)
  unfolding up_to stable_insert
  up_to-stable_insert t x [] f s = ground arith
  up_to-stable_insert t x (y ∷ ys) f s = ground (
    arith,
    up_to-stable_insert t x ys f s.2,
    le_trans (key y) (key x) t,
    le_trans (key x) (key y) t,
    le-of_lt (key x) (key y),
    lt-of_not_le (key y) (key x) (not_nan-of_finite _ s.0) (not_nan-of_finite _ f),
    filter_nothing (λ s. le (key s) t) ys,
    newer_than_head key t y ys s,
  )

  -- At its own time a new sample comes last.
  pub up_to-insert_self :
      (x : A) (xs : List A)
      → is_finite (key x) ≡ true
      → Sorted key xs
      → up_to (key x) (append_sorted key x xs) ≡ up_to (key x) xs ++ x ∷ []
  up_to-insert_self x xs f s =
      rw
        (
          append_sorted-stable_insert key x xs s,
          up_to-stable_insert (key x) x xs f s,
          le_refl (key x) f,
        )
        (stable_insert_last x (up_to (key x) xs) (unfold up_to in All-filter _ xs))

  -- A time before the new sample's does not see it.
  pub up_to-insert_later :
      (t : F64) (x : A) (xs : List A)
      → is_finite (key x) ≡ true
      → Sorted key xs
      → le (key x) t ≡ false
      → up_to t (append_sorted key x xs) ≡ up_to t xs
  up_to-insert_later t x xs f s h =
      rw (append_sorted-stable_insert key x xs s, up_to-stable_insert t x xs f s, h)
