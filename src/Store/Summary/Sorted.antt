-- ===== src/Store/Summary/Sorted.antt =====
-- What the stable sort of `core/src/store.rs` keeps.
use fly_ruler_proto.Base.{
  [], ◌∷◌, List, inl, inr, Bool-cases, Bool, length, ◌⊎◌, Any, All, ◌≡◌, arith, ◌+◌, refl,
}
use fly_ruler_proto.Store.Summary.{insert_sorted, sort_by}

module _ {A : Type 0} (less : A → A → Bool) where
  insert_sorted-All :
      (P : A → Type 0) (x : A) (ys : List A) → P x → All P ys → All P (insert_sorted less x ys)
  unfolding insert_sorted
  insert_sorted-All P x [] p h = (p, tt)
  insert_sorted-All P x (y ∷ ys) p h = elim (Bool-cases (less y x)) [
    | inl b ↦ rw b (h.0, insert_sorted-All P x ys p h.1)
    | inr b ↦ rw b (p, h)
  ]

  pub sort_by-All : (P : A → Type 0) (xs : List A) → All P xs → All P (sort_by less xs)
  unfolding sort_by
  sort_by-All P [] h = tt
  sort_by-All P (x ∷ xs) h = insert_sorted-All P x (sort_by less xs) h.0 (sort_by-All P xs h.1)

  insert_sorted-Any :
      (P : A → Type 0) (x : A) (ys : List A) → P x ⊎ Any P ys → Any P (insert_sorted less x ys)
  unfolding insert_sorted
  insert_sorted-Any P x [] h = h
  insert_sorted-Any P x (y ∷ ys) h = elim (Bool-cases (less y x)) [
    | inr b ↦ rw b h
    | inl b ↦ rw b (elim h [
      | inl p ↦ inr (insert_sorted-Any P x ys (inl p))
      | inr (inl q) ↦ inl q
      | inr (inr m) ↦ inr (insert_sorted-Any P x ys (inr m))
    ])
  ]

  pub sort_by-Any : (P : A → Type 0) (xs : List A) → Any P xs → Any P (sort_by less xs)
  unfolding sort_by
  sort_by-Any P [] h = h
  sort_by-Any P (x ∷ xs) (inl p) = insert_sorted-Any P x (sort_by less xs) (inl p)
  sort_by-Any P (x ∷ xs) (inr m) =
      insert_sorted-Any P x (sort_by less xs) (inr (sort_by-Any P xs m))

  length-insert_sorted : (x : A) (ys : List A) → length (insert_sorted less x ys) ≡ length ys + 1
  unfolding insert_sorted
  length-insert_sorted x [] = omega arith
  length-insert_sorted x (y ∷ ys) = elim (Bool-cases (less y x)) [
    | inl b ↦ rw b (omega (arith, length-insert_sorted x ys))
    | inr b ↦ rw b (omega arith)
  ]

  pub length-sort_by : (xs : List A) → length (sort_by less xs) ≡ length xs
  unfolding sort_by
  length-sort_by [] = refl
  length-sort_by (x ∷ xs) =
      omega (arith, length-insert_sorted x (sort_by less xs), length-sort_by xs)
