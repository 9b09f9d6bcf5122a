-- ===== src/Timeline/Order.antt =====
-- The insertion of `append_state`, `append_event` and `append_telemetry` is a stable insertion.
use fly_ruler_proto.Base.{
  ◌≡◌, refl, sym, inl, inr, true, none, some, List, [], ◌∷◌, ◌++◌, arith, if◌then◌else◌, Bool-cases,
  Option-cases, get_last?, All, get_last?-ne-none,
}
use fly_ruler_proto.Float.{
  F64, is_finite, le, le_refl, le_trans, le-of_lt, not_nan-of_finite, lt-of_not_le,
}
use fly_ruler_proto.Timeline.{partition_point, insert_at, append_sorted, Sorted}

module _ {A : Type 0} (key : A → F64) where
  -- The reference: behind every sample that is not newer.
  unfoldable pub stable_insert : A → List A → List A
  stable_insert x [] = x ∷ []
  stable_insert x (y ∷ ys) = if le (key y) (key x) then y ∷ stable_insert x ys else x ∷ y ∷ ys

  insert_at-partition_point :
      (x : A) (xs : List A)
      → insert_at (partition_point (λ y. le (key y) (key x)) xs) x xs ≡ stable_insert x xs
  unfolding stable_insert
  insert_at-partition_point x [] = refl
  insert_at-partition_point x (y ∷ ys) = ground (arith, insert_at-partition_point x ys)

  All-le_trans :
      (a b : F64) (xs : List A)
      → le a b ≡ true
      → All (λ y. le b (key y) ≡ true) xs
      → All (λ y. le a (key y) ≡ true) xs
  All-le_trans a b [] h k = tt
  All-le_trans a b (x ∷ xs) h k = (le_trans a b (key x) h k.0, All-le_trans a b xs h k.1)

  -- The last sample of a sorted vector is its newest.
  pub le-of-last :
      (x l : A) (xs : List A)
      → Sorted key (x ∷ xs)
      → get_last? (x ∷ xs) ≡ some l
      → le (key x) (key l) ≡ true
  le-of-last x l [] s e = ground (arith, le_refl (key x) s.0)
  le-of-last x l (y ∷ ys) s e = le_trans (key x) (key y) (key l) s.1.0 (le-of-last y l ys s.2 e)

  stable_insert_newest :
      (x l : A) (xs : List A)
      → Sorted key xs
      → get_last? xs ≡ some l
      → le (key l) (key x) ≡ true
      → stable_insert x xs ≡ xs ++ x ∷ []
  unfolding stable_insert
  stable_insert_newest x l [] s e h = refl
  stable_insert_newest x l (y ∷ []) s e h = ground arith
  stable_insert_newest x l (y ∷ z ∷ ys) s e h =
      let older = le-of-last y l (z ∷ ys) s e in
      ground
        (arith, le_trans (key y) (key l) (key x) older h, stable_insert_newest x l (z ∷ ys) s.2 e h)

  stable_insert_first :
      (x : A) (xs : List A) → get_last? xs ≡ none → xs ++ x ∷ [] ≡ stable_insert x xs
  unfolding stable_insert
  stable_insert_first x [] e = refl
  stable_insert_first x (y ∷ ys) e = absurd (get_last?-ne-none y ys e)

  -- On a vector that is sorted by finite times, the insertion that the append methods share puts
  -- the sample after every sample that is not newer than it and before the first newer one, as a
  -- stable insertion by recursion does.
  pub append_sorted-stable_insert :
      (x : A) (xs : List A) → Sorted key xs → append_sorted key x xs ≡ stable_insert x xs
  unfolding append_sorted
  append_sorted-stable_insert x xs s = elim (Option-cases (get_last? xs)) [
    | inl e ↦ rw e (stable_insert_first x xs e)
    | inr (l, e) ↦ elim (Bool-cases (le (key l) (key x))) [
      | inl h ↦ rw (e, h) (sym (stable_insert_newest x l xs s e h))
      | inr h ↦ rw (e, h) (insert_at-partition_point x xs)
    ]
  ]

  All-stable_insert :
      (a : F64) (x : A) (xs : List A)
      → le a (key x) ≡ true
      → All (λ y. le a (key y) ≡ true) xs
      → All (λ y. le a (key y) ≡ true) (stable_insert x xs)
  unfolding stable_insert
  All-stable_insert a x [] h k = (h, tt)
  All-stable_insert a x (y ∷ ys) h k = ground (arith, All-stable_insert a x ys h k.1)

  stable_insert-Sorted :
      (x : A) (xs : List A)
      → is_finite (key x) ≡ true
      → Sorted key xs
      → Sorted key (stable_insert x xs)
  unfolding stable_insert
  stable_insert-Sorted x [] h s = (h, tt, tt)
  stable_insert-Sorted x (y ∷ ys) h s = elim (Bool-cases (le (key y) (key x))) [
    | inl before ↦
        rw before (s.0, All-stable_insert (key y) x ys before s.1, stable_insert-Sorted x ys h s.2)
    | inr after ↦
        let newer =
          le-of_lt (key x) (key y) (
            lt-of_not_le (key y) (key x) (not_nan-of_finite _ s.0) (not_nan-of_finite _ h) after) in
        rw after (h, (newer, All-le_trans (key x) (key y) ys newer s.1), s)
  ]

  -- The insertion keeps a sorted vector sorted.
  pub append_sorted-Sorted :
      (x : A) (xs : List A)
      → is_finite (key x) ≡ true
      → Sorted key xs
      → Sorted key (append_sorted key x xs)
  append_sorted-Sorted x xs h s =
      rw (append_sorted-stable_insert x xs s) (stable_insert-Sorted x xs h s)
