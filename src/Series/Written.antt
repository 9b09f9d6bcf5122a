-- ===== src/Series/Written.antt =====
-- The output of a query: results are written to their places, and once every place is written the
-- response is the list of the results.
use fly_ruler_proto.Series.{SeriesData}
use fly_ruler_proto.Series.Query.{flatten, write_output}
use fly_ruler_proto.Base.{
  [], ◌∷◌, none, some, zero, suc, Option, ℕ, List, ◌<◌, map, Bool, get_elem?, ◌≡◌, length, true,
  false, arith, refl,
}
use fly_ruler_proto.Timeline.{value}

-- What has been written so far agrees with the results.
abbrev pub Fits : List (Option SeriesData) → List SeriesData → Type 0
Fits [] [] = Unit
Fits [] (d ∷ results) = ⊥
Fits (o ∷ output) [] = ⊥
Fits (none ∷ output) (d ∷ results) = Fits output results
Fits (some e ∷ output) (d ∷ results) = (e ≡ d) × Fits output results

unfoldable pub is_written : ℕ → List (Option SeriesData) → Bool
is_written index [] = false
is_written zero (none ∷ output) = false
is_written zero (some d ∷ output) = true
is_written (suc index) (o ∷ output) = is_written index output

-- More has been written.
abbrev pub Extends : List (Option SeriesData) → List (Option SeriesData) → Type 0
Extends output further = (j : ℕ) → is_written j output ≡ true → is_written j further ≡ true

Extends-cons :
    (o : Option SeriesData) (output further : List (Option SeriesData))
    → Extends output further
    → Extends (o ∷ output) (o ∷ further)
unfolding is_written
Extends-cons none output further h zero w = w
Extends-cons (some d) output further h zero w = w
Extends-cons none output further h (suc j) w = h j w
Extends-cons (some d) output further h (suc j) w = h j w

Extends-some :
    (o : Option SeriesData) (d : SeriesData) (output : List (Option SeriesData))
    → Extends (o ∷ output) (some d ∷ output)
unfolding is_written
Extends-some o d output zero w = refl
Extends-some o d output (suc j) w = w

Fits-cons :
    (o : Option SeriesData) (d : SeriesData) (output further : List (Option SeriesData))
    (results : List SeriesData)
    → Fits (o ∷ output) (d ∷ results)
    → Fits further results
    → Fits (o ∷ further) (d ∷ results)
Fits-cons none d output further results h f = f
Fits-cons (some e) d output further results h f = (h.0, f)

Fits-tail :
    (o : Option SeriesData) (d : SeriesData) (output : List (Option SeriesData))
    (results : List SeriesData)
    → Fits (o ∷ output) (d ∷ results)
    → Fits output results
Fits-tail none d output results h = h
Fits-tail (some e) d output results h = h.1

pub write_output_lem :
    (index : ℕ) (d : SeriesData) (output : List (Option SeriesData)) (results : List SeriesData)
    → get_elem? results index ≡ some d
    → Fits output results
    → (further : List (Option SeriesData)) × (write_output index d output ≡ value further)
      × Fits further results
      × Extends output further
      × (is_written index further ≡ true)
unfolding write_output is_written
write_output_lem index d [] [] e h = absurd (cc)
write_output_lem index d [] (r ∷ results) e h = absurd h
write_output_lem index d (o ∷ output) [] e h = absurd h
write_output_lem zero d (o ∷ output) (r ∷ results) e h =
    let same : d ≡ r = cc in
    (some d ∷ output, refl, (same, Fits-tail o r output results h), Extends-some o d output, refl)
write_output_lem (suc index) d (o ∷ output) (r ∷ results) e h =
    let (further, w, f, x, i) =
      write_output_lem index d output results e (Fits-tail o r output results h) in
    (
      o ∷ further,
      rw w refl,
      Fits-cons o r output further results h f,
      Extends-cons o output further x,
      i,
    )

pub flatten_lem :
    (output : List (Option SeriesData)) (results : List SeriesData)
    → Fits output results
    → ((j : ℕ) → j < length results → is_written j output ≡ true)
    → flatten output ≡ results
unfolding flatten is_written
flatten_lem [] [] h w = refl
flatten_lem [] (r ∷ results) h w = absurd h
flatten_lem (o ∷ output) [] h w = absurd h
flatten_lem (none ∷ output) (r ∷ results) h w = absurd (cc (w 0 (omega arith)))
flatten_lem (some d ∷ output) (r ∷ results) h w =
    let rest = flatten_lem output results h.1 (λ j l. w (suc j) (omega arith)) in cc

pub Fits-map :
    {A : Type 0} (f : A → SeriesData) (xs : List A) → Fits (map (λ x. none) xs) (map f xs)
Fits-map f [] = tt
Fits-map f (x ∷ xs) = Fits-map f xs
