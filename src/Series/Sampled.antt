-- ===== src/Series/Sampled.antt =====
-- `lttb` indexes within the points, and what it returns.
use fly_ruler_proto.Float.{lt}
use fly_ruler_proto.Base.{
  length, Any, ◌≤◌, ◌≡◌, All, ◌<◌, take, Bool-cases, ◌-◌, ◌∷◌, arith, min, head?, suc, leb,
  get_last?, ◌+◌, drop, some, inl, max, ◌++◌, [], inr, length-append, zero, refl, ltb,
  if◌then◌else◌, false, sym, get_last?-concat, ◌∙◌, All-append,
}
use fly_ruler_proto.Series.Sample.{
  lttb, index_point, largest, average_of, choose, boundary, buckets, area, minus_one,
}
use fly_ruler_proto.Timeline.{value, slice}
use fly_ruler_proto.Series.{Point, ℕ, List, F64}
use fly_ruler_proto.Series.Arithmetic.{Arithmetic, IsRounded, exact_limit}

-- A point of the list.
abbrev pub Among : List Point → Point → Type 0
Among points p = Any (λ q. q ≡ p) points

index_point_lem :
    (points : List Point) (i : ℕ)
    → i < length points
    → (p : Point) × (index_point points i ≡ value p) × Among points p
unfolding index_point
index_point_lem [] i h = absurd (omega arith)
index_point_lem (p ∷ points) zero h = (p, refl, inl refl)
index_point_lem (p ∷ points) (suc i) h =
    let (q, e, m) = index_point_lem points i (omega arith) in (q, e, inr m)

slice_lem :
    (first last : ℕ) (points : List Point)
    → first ≤ last
    → last ≤ length points
    → (xs : List Point) × (slice first last points ≡ value xs)
unfolding slice
slice_lem first last points h k = (take (last - first) (drop first points), ground arith)

-- What a sample keeps of the points.
pub record IsSampled (points : List Point) (threshold : ℕ) (out : List Point) : Type 0 where
  pub count : length out ≡ min (length points) threshold
  pub first : head? out ≡ head? points
  pub last : get_last? out ≡ get_last? points
  pub members : All (Among points) out

All-Among_within :
    (xs ys : List Point) → ((p : Point) → Among xs p → Among ys p) → All (Among ys) xs
All-Among_within [] ys f = tt
All-Among_within (x ∷ xs) ys f = (f x (inl refl), All-Among_within xs ys (λ p m. f p (inr m)))

All-Among : (xs : List Point) → All (Among xs) xs
All-Among xs = All-Among_within xs xs (λ p m. m)

module _ (a : Arithmetic) (points : List Point) where
  average_of_lem :
      (start : ℕ) (ahead : List Point)
      → 0 < length points
      → (p : Point) × (average_of a points start ahead ≡ value p)
  unfolding average_of
  average_of_lem start [] h =
      let (p, e, m) = index_point_lem points (min (start - 1) (length points - 1)) (omega arith) in
      (p, e)
  average_of_lem start (p ∷ ahead) h = (_, refl)

  largest_lem :
      (anchor average : Point) (rounds index : ℕ) (max_area : F64) (next : ℕ)
      → next < length points
      → (i : ℕ) × (largest a points anchor average rounds index max_area next ≡ value i)
        × (i < length points)
  unfolding largest
  largest_lem anchor average zero index max_area next h = (next, refl, h)
  largest_lem anchor average (suc rounds) index max_area next h =
      let (p, e, m) = index_point_lem points (min index (length points - 2)) (omega arith) in
      let larger = lt max_area (area a anchor average p) in
      let (i, f, k) =
        largest_lem anchor average rounds (index + 1)
          (if larger then area a anchor average p else max_area)
          (if larger then min index (length points - 2) else next) (ground arith) in
      (i, rw e f, k)

  module _ (r : IsRounded a) (threshold : ℕ) (three : 3 ≤ threshold)
      (more : threshold < length points) (exact : length points < exact_limit) where
    abbrev every : F64
    every = a.quotient (a.of_usize (length points - 2)) (a.of_usize (threshold - 2))

    boundary_mono : (b c : ℕ) → b ≤ c → c ≤ threshold → boundary a every b ≤ boundary a every c
    boundary_mono b c h k =
        let (finite, positive) =
          r.quotient-of_usize (length points - 2) (threshold - 2) (omega arith) (omega arith)
            (omega arith) in
        omega (
          arith,
          r.to_usize_mono (a.product (a.of_usize b) every) (a.product (a.of_usize c) every)
              (r.product_mono b c every h (omega arith) finite positive),
        )

    boundary-lt-length : (b : ℕ) → b < threshold - 2 → boundary a every b < length points
    boundary-lt-length b h = omega (
      arith,
      r.to_usize_mono (a.product (a.of_usize b) every) (a.of_usize (length points - 2))
          (r.product-quotient b (length points - 2) (threshold - 2) h (omega arith) (omega arith)),
      r.to_usize-of_usize (length points - 2) (omega arith),
    )

    choose_lem :
        (bucket selected : ℕ)
        → bucket < threshold - 2
        → selected < length points
        → (i : ℕ) × (choose a points every bucket selected ≡ value i) × (i < length points)
    unfolding choose
    choose_lem bucket selected h k =
        let start = min (boundary a every (bucket + 1)) (length points) in
        let (ahead, e) =
          slice_lem start (min (boundary a every (bucket + 2)) (length points)) points
            (omega (arith, boundary_mono (bucket + 1) (bucket + 2) (omega arith) (omega arith)))
            (omega arith) in
        let (average, f) = average_of_lem start ahead (omega arith) in
        let (anchor, g, m) = index_point_lem points selected k in
        let first = boundary a every bucket in
        let last = min (boundary a every (bucket + 1)) (length points - 1) in
        let (i, l, n) =
          largest_lem anchor average (max last (first + 1) - first) first (minus_one a) first
            (boundary-lt-length bucket h) in
        (i, rw (e, f, g) l, n)

    buckets_lem :
        (rounds bucket selected : ℕ)
        → bucket + rounds ≤ threshold - 2
        → selected < length points
        → (out : List Point) × (buckets a points every rounds bucket selected ≡ value out)
          × (length out ≡ rounds)
          × All (Among points) out
    unfolding buckets
    buckets_lem zero bucket selected h k = ([], refl, refl, tt)
    buckets_lem (suc rounds) bucket selected h k =
        let (i, e, n) = choose_lem bucket selected (omega arith) k in
        let (p, f, m) = index_point_lem points i n in
        let (out, g, l, all) = buckets_lem rounds (bucket + 1) i (omega arith) n in
        (p ∷ out, rw (e, f, g) refl, omega (arith, l), (m, all))

    middle_lem :
        (out : List Point) (p q : Point)
        → length out ≡ threshold - 2
        → All (Among points) out
        → Among points p
        → Among points q
        → head? points ≡ some p
        → get_last? points ≡ some q
        → IsSampled points threshold (p ∷ (out ++ q ∷ []))
    middle_lem out p q l m hp hq e f = record {
      count = omega (arith, length-append out (q ∷ []), l);
      first = sym e;
      last = get_last?-concat (p ∷ out) q ∙ sym f;
      members = (hp, All-append (Among points) out (q ∷ []) m (hq, tt));
    }

first_lem : (p : Point) (xs : List Point) → index_point xs 0 ≡ value p → head? xs ≡ some p
unfolding index_point
first_lem p [] e = cc
first_lem p (x ∷ xs) e = cc

last_lem :
    (p : Point) (xs : List Point) (n : ℕ)
    → length xs ≡ suc n
    → index_point xs n ≡ value p
    → get_last? xs ≡ some p
unfolding index_point
last_lem p [] n l e = absurd (omega arith)
last_lem p (x ∷ []) zero l e = cc
last_lem p (x ∷ []) (suc n) l e = absurd (omega arith)
last_lem p (x ∷ y ∷ xs) zero l e = absurd (omega arith)
last_lem p (x ∷ y ∷ xs) (suc n) l e = last_lem p (y ∷ xs) n (omega arith) e

-- Of fewer than 2^53 points, for arithmetic that rounds as IEEE 754 does: a sample of at least
-- three points never indexes out of range; it has as many points as were asked for, or all if
-- there are not more; each is one of the points, and the first and the last are kept.
pub lttb-IsSampled :
    (a : Arithmetic) (points : List Point) (threshold : ℕ)
    → IsRounded a
    → 3 ≤ threshold
    → length points < exact_limit
    → (out : List Point) × (lttb a points threshold ≡ value out) × IsSampled points threshold out
unfolding lttb
lttb-IsSampled a points threshold r three exact =
    elim (Bool-cases (leb (length points) threshold)) [
      | inl few ↦ (
        points,
        rw few refl,
        record { count = ground arith; first = refl; last = refl; members = All-Among points },
      )
      | inr many ↦
          let more : threshold < length points = ground arith in
          let (p, e, hp) = index_point_lem points 0 (omega arith) in
          let (q, f, hq) = index_point_lem points (length points - 1) (omega arith) in
          let (out, g, l, m) =
            buckets_lem a points r threshold three more exact (threshold - 2) 0 0 (omega arith)
              (omega arith) in
          let large : ltb threshold 3 ≡ false = ground arith in
          (
            p ∷ (out ++ q ∷ []),
            rw (many, large, e, g, f) refl,
            middle_lem a points r threshold three more exact out p q l m hp hq
                (first_lem p points e) (last_lem q points (length points - 1) (omega arith) f),
          )
    ]
