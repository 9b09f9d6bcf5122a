-- ===== src/Timeline.antt =====
-- Time-ordered vectors, as `core/src/store.rs` keeps them, and the slice operations it calls.
pub mod Order
pub mod Ranges
pub mod Recent
mod Examples
use fly_ruler_proto.Base.{
  ℕ, zero, suc, ◌-◌, ◌<◌, ◌≡◌, Bool, true, not, ◌&&◌, Option, none, List, [], ◌∷◌, ◌++◌, leb,
  if◌then◌else◌, is_none_or, length, get_elem?, take, drop, get_last?, filter, All,
}
use fly_ruler_proto.Float.{F64, is_finite, le, lt}

-- What an expression that may panic gives.
pub data Outcome {ℓ} (A : Type ℓ) : Type ℓ where
  value : A → Outcome A
  panic : Outcome A

abbrev pub map_outcome {ℓ κ} : {A : Type ℓ} {B : Type κ} → (A → B) → Outcome A → Outcome B
map_outcome f (value a) = value (f a)
map_outcome f panic = panic

module _ {A : Type 0} where
  -- `slice::partition_point`: the number of leading elements that pass the test.
  abbrev pub partition_point : (A → Bool) → List A → ℕ
  partition_point p [] = 0
  partition_point p (x ∷ xs) = if p x then suc (partition_point p xs) else 0

  -- `Vec::insert` at an index of at most the length.
  abbrev pub insert_at : ℕ → A → List A → List A
  insert_at zero x xs = x ∷ xs
  insert_at (suc i) x [] = x ∷ []
  insert_at (suc i) x (y ∷ xs) = y ∷ insert_at i x xs

  -- `&items[first..last]`, which panics on a reversed or too long range.
  unfoldable pub slice : ℕ → ℕ → List A → Outcome (List A)
  slice first last xs =
      if leb first last && leb last (length xs)
      then value (take (last - first) (drop first xs))
      else panic

  module _ (key : A → F64) where
    -- The insertion that the three `append` methods share: at the end if the new sample is not
    -- older than the last one, else at the partition point of the samples that are not newer.
    unfoldable pub append_sorted : A → List A → List A
    append_sorted x xs =
        if is_none_or (get_last? xs) (λ l. le (key l) (key x))
        then xs ++ x ∷ []
        else insert_at (partition_point (λ y. le (key y) (key x)) xs) x xs

    -- `partition_point(|s| s.t < start) .. partition_point(|s| s.t <= end)`.
    unfoldable pub range_slice : F64 → F64 → List A → Outcome (List A)
    unfolding slice
    range_slice start end xs =
        slice (partition_point (λ s. lt (key s) start) xs)
          (partition_point (λ s. le (key s) end) xs) xs

    -- `iter().filter(|s| s.t >= start && s.t <= end)`.
    unfoldable pub range_filter : F64 → F64 → List A → List A
    range_filter start end xs = filter (λ s. le start (key s) && le (key s) end) xs

    -- `partition_point(|s| s.t <= t).checked_sub(1)`, then `get`.
    unfoldable pub last_at_or_before : F64 → List A → Option A
    last_at_or_before t xs = elim (partition_point (λ s. le (key s) t) xs) [
      | zero ↦ none
      | suc i ↦ get_elem? xs i
    ]

    -- Sorted by time, every time finite.
    abbrev pub Sorted : List A → Type 0
    Sorted [] = Unit
    Sorted (x ∷ xs) =
        (is_finite (key x) ≡ true) × All (λ y. le (key x) (key y) ≡ true) xs × Sorted xs
