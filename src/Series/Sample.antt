-- ===== src/Series/Sample.antt =====
-- `stats` and `lttb` of `core/src/management/series.rs`: the statistics and the down-sampling of a
-- series. Indices stay below the number of points, so their sums do not wrap.
use fly_ruler_proto.Base.{
  and_then, min, suc, ◌+◌, get_elem?, [], if◌then◌else◌, ◌∷◌, length, head?, ◌-◌, leb, max,
  map_option, zero, ◌||◌, get_last?, ltb, ◌++◌, none, some,
}
use fly_ruler_proto.Float.{minus, lt, plus, fmin, infinity_bits, fmax}
use fly_ruler_proto.Timeline.{Outcome, value, panic, map_outcome, slice}
use fly_ruler_proto.Series.{Point, SeriesStats, F64, List, Option, ℕ}
use fly_ruler_proto.Series.Arithmetic.{Arithmetic}

unfoldable pub fold_bounds : F64 → F64 → List Point → F64 × F64
fold_bounds low high [] = (low, high)
fold_bounds low high (p ∷ ps) = fold_bounds (fmin low p.1) (fmax high p.1) ps

unfoldable pub stats : List Point → Option SeriesStats
unfolding fold_bounds
stats points = and_then (head? points) (λ first.
    map_option
      (λ last.
        let bounds = fold_bounds (plus infinity_bits) (minus infinity_bits) points in
        record { min = bounds.0; max = bounds.1; last = last.1; start = first.0; end = last.0 })
      (get_last? points))

-- `f` of what is there; a panic passes on.
abbrev pub then_outcome {ℓ κ} : {A : Type ℓ} {B : Type κ} → Outcome A → (A → Outcome B) → Outcome B
then_outcome (value a) f = f a
then_outcome panic f = panic

-- `points[index]`.
unfoldable pub index_point : List Point → ℕ → Outcome Point
index_point points i = elim (get_elem? points i) [ none ↦ panic | some p ↦ value p ]

module _ (a : Arithmetic) where
  open a use {of_usize, to_usize, sum, difference, product, quotient, abs}

  unfoldable pub sum_points : F64 → F64 → List Point → F64 × F64
  sum_points x y [] = (x, y)
  sum_points x y (p ∷ ps) = sum_points (sum x p.0) (sum y p.1) ps

  -- The mean of a bucket, or the point before an empty one.
  unfoldable pub average_of : List Point → ℕ → List Point → Outcome Point
  average_of points start [] = index_point points (min (start - 1) (length points - 1))
  average_of points start (p ∷ ps) =
      let total = sum_points (plus 0) (plus 0) (p ∷ ps) in
      let count = of_usize (length (p ∷ ps)) in
      value (quotient total.0 count, quotient total.1 count)

  -- Twice the area of the triangle of the anchor, the point and the average.
  unfoldable pub area : Point → Point → Point → F64
  area anchor average point = abs (
      difference (product (difference anchor.0 average.0) (difference point.1 anchor.1))
        (product (difference anchor.0 point.0) (difference average.1 anchor.1)))

  -- The loop over the indices of a bucket, `rounds` of them from `index` on.
  unfoldable pub largest : List Point → Point → Point → ℕ → ℕ → F64 → ℕ → Outcome ℕ
  largest points anchor average zero index max_area next = value next
  largest points anchor average (suc rounds) index max_area next =
      then_outcome (index_point points (min index (length points - 2))) (λ point.
        let size = area anchor average point in
        let larger = lt max_area size in
        largest points anchor average rounds (index + 1) (if larger then size else max_area)
          (if larger then min index (length points - 2) else next))

  -- `(bucket as f64 * every).floor() as usize + 1`.
  abbrev pub boundary : F64 → ℕ → ℕ
  boundary every bucket = to_usize (product (of_usize bucket) every) + 1

  -- -1.0
  abbrev pub minus_one : F64
  minus_one = minus 0x3ff0_0000_0000_0000

  -- The index that a bucket contributes.
  unfoldable pub choose : List Point → F64 → ℕ → ℕ → Outcome ℕ
  unfolding index_point average_of largest area
  choose points every bucket selected =
      let average_start = min (boundary every (bucket + 1)) (length points) in
      let average_end = min (boundary every (bucket + 2)) (length points) in
      let range_start = boundary every bucket in
      let range_end = min (boundary every (bucket + 1)) (length points - 1) in
      then_outcome (slice average_start average_end points) (λ ahead.
        then_outcome (average_of points average_start ahead) (λ average.
          then_outcome (index_point points selected) (λ anchor.
            largest points anchor average (max range_end (range_start + 1) - range_start)
              range_start minus_one range_start)))

  unfoldable pub buckets : List Point → F64 → ℕ → ℕ → ℕ → Outcome (List Point)
  unfolding choose
  buckets points every zero bucket selected = value []
  buckets points every (suc rounds) bucket selected =
      then_outcome (choose points every bucket selected) (λ next.
        then_outcome (index_point points next)
          (λ point. map_outcome (◌∷◌ point) (buckets points every rounds (bucket + 1) next)))

  unfoldable pub lttb : List Point → ℕ → Outcome (List Point)
  unfolding buckets
  lttb points threshold =
      if leb (length points) threshold || ltb threshold 3
      then value points
      else (let every = quotient (of_usize (length points - 2)) (of_usize (threshold - 2)) in
          then_outcome (index_point points 0) (λ first.
            then_outcome (buckets points every (threshold - 2) 0 0) (λ middle.
              then_outcome (index_point points (length points - 1))
                (λ last. value (first ∷ (middle ++ last ∷ []))))))
