-- ===== src/Timeline/Ranges.antt =====
-- Binary-search boundaries against linear filters, on a sorted vector.
use native.Mathlib.Nat.{sub-zero}
use fly_ruler_proto.Base.{
  ℕ, ◌-◌, ◌≤◌, ◌<◌, ◌≡◌, refl, sym, ap, inl, inr, Bool, true, false, List, [], ◌∷◌, arith,
  Bool-cases, length, take, drop, filter, All, ◌∙◌, ◌&&◌, All-implies,
}
use fly_ruler_proto.Float.{
  F64, is_nan, le, le_trans, lt, le-of_not_lt, lt-of_lt-le, le-of_lt, not_nan-of_le,
  not_nan-of_finite, not_lt-of_le,
}
use fly_ruler_proto.Timeline.{
  value, panic, partition_point, slice, Sorted, range_filter, range_slice,
}

module _ {A : Type 0} where
  pub partition_point-le-length : (p : A → Bool) (xs : List A) → partition_point p xs ≤ length xs
  partition_point-le-length p [] = omega arith
  partition_point-le-length p (x ∷ xs) = ground (arith, partition_point-le-length p xs)

  pub filter_nothing : (p : A → Bool) (xs : List A) → All (λ x. p x ≡ false) xs → filter p xs ≡ []
  filter_nothing p [] h = refl
  filter_nothing p (x ∷ xs) h = ground (arith, filter_nothing p xs h.1)

  filter-congruence :
      (p q : A → Bool) (xs : List A) → All (λ x. p x ≡ q x) xs → filter p xs ≡ filter q xs
  filter-congruence p q [] h = refl
  filter-congruence p q (x ∷ xs) h = ground (arith, filter-congruence p q xs h.1)

  -- What `slice` gives when its bounds are in order.
  slice_in_order :
      (a b : ℕ) (xs : List A)
      → a ≤ b
      → b ≤ length xs
      → slice a b xs ≡ value (take (b - a) (drop a xs))
  unfolding slice
  slice_in_order a b xs h k = ground arith

  slice_reversed : (a b : ℕ) (xs : List A) → b < a → slice a b xs ≡ panic
  unfolding slice
  slice_reversed a b xs h = ground arith

module _ {A : Type 0} (key : A → F64) where
  -- On a sorted vector the test `older or equal` is passed by a prefix.
  pub newer_than_head :
      (end : F64) (x : A) (xs : List A)
      → Sorted key (x ∷ xs)
      → le (key x) end ≡ false
      → All (λ s. le (key s) end ≡ false) xs
  newer_than_head end x xs s h =
      All-implies (λ y. le (key x) (key y) ≡ true) (λ y. le (key y) end ≡ false) xs
        (λ y k. ground (arith, le_trans (key x) (key y) end k)) s.1

  pub take-partition_point :
      (end : F64) (xs : List A)
      → Sorted key xs
      → take (partition_point (λ s. le (key s) end) xs) xs ≡ filter (λ s. le (key s) end) xs
  take-partition_point end [] s = refl
  take-partition_point end (x ∷ xs) s = elim (Bool-cases (le (key x) end)) [
    | inl h ↦ rw h (ap (◌∷◌ x) (take-partition_point end xs s.2))
    | inr h ↦ rw h (sym (filter_nothing _ xs (newer_than_head end x xs s h)))
  ]

  -- The two boundaries of `range_slice` are in order when the range is not reversed.
  boundaries_in_order :
      (start end : F64) (xs : List A)
      → le start end ≡ true
      → partition_point (λ s. lt (key s) start) xs ≤ partition_point (λ s. le (key s) end) xs
  boundaries_in_order start end [] h = omega arith
  boundaries_in_order start end (x ∷ xs) h = ground (
    arith,
    lt-of_lt-le (key x) start end,
    le-of_lt (key x) end,
    boundaries_in_order start end xs h,
  )

  not_before_start :
      (start : F64) (x : A) (xs : List A)
      → is_nan start ≡ false
      → Sorted key (x ∷ xs)
      → lt (key x) start ≡ false
      → All (λ s. le start (key s) ≡ true) (x ∷ xs)
  not_before_start start x xs n s h =
      let first = le-of_not_lt start (key x) n (not_nan-of_finite (key x) s.0) h in
      (
        first,
        All-implies (λ y. le (key x) (key y) ≡ true) (λ y. le start (key y) ≡ true) xs
            (λ y k. le_trans start (key x) (key y) first k) s.1,
      )

  -- A range that starts at or before every sample is cut at its end only.
  range_filter_from_first :
      (start end : F64) (xs : List A)
      → All (λ s. le start (key s) ≡ true) xs
      → range_filter key start end xs ≡ filter (λ s. le (key s) end) xs
  unfolding range_filter
  range_filter_from_first start end xs h = filter-congruence _ _ xs (
      All-implies (λ s. le start (key s) ≡ true)
        (λ s. (le start (key s) && le (key s) end) ≡ le (key s) end) xs (λ y k. rw k) h)

  range_cut :
      (start end : F64) (xs : List A)
      → le start end ≡ true
      → Sorted key xs
      → take
          (partition_point (λ s. le (key s) end) xs - partition_point (λ s. lt (key s) start) xs)
          (drop (partition_point (λ s. lt (key s) start) xs) xs)
        ≡ range_filter key start end xs
  unfolding range_filter
  range_cut start end [] h s = refl
  range_cut start end (x ∷ xs) h s = elim (Bool-cases (lt (key x) start)) [
    | inl before ↦ ground (
      arith,
      le-of_lt (key x) end (lt-of_lt-le (key x) start end before h),
      not_lt-of_le start (key x),
      range_cut start end xs h s.2,
    )
    | inr after ↦
        rw (after, sub-zero)
          (take-partition_point end (x ∷ xs) s
            ∙ sym (
                range_filter_from_first start end (x ∷ xs)
                  (not_before_start start x xs (not_nan-of_le start end h).0 s after)))
  ]

  -- On a vector that is sorted by finite times, for a range that is not reversed, the slice
  -- between the two partition points does not panic and holds the samples that a filter by the two
  -- ends keeps.
  pub range_slice-range_filter :
      (start end : F64) (xs : List A)
      → le start end ≡ true
      → Sorted key xs
      → range_slice key start end xs ≡ value (range_filter key start end xs)
  unfolding range_slice
  range_slice-range_filter start end xs h s =
      slice_in_order _ _ xs (boundaries_in_order start end xs h) (partition_point-le-length _ xs)
      ∙ ap value (range_cut start end xs h s)
