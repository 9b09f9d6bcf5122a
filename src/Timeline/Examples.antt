-- ===== src/Timeline/Examples.antt =====
-- The theorems on sorted vectors and on aircraft ids at concrete lists.
use fly_ruler_proto.Base.{ℕ, ◌≡◌, refl, true, List, [], ◌∷◌, arith}
use fly_ruler_proto.Base.Hex.{hex_of_bytes-injective}
use fly_ruler_proto.Float.{F64, plus, is_finite, le}
use fly_ruler_proto.Timeline.{value, append_sorted, range_slice, range_filter, Sorted}
use fly_ruler_proto.Timeline.Order.{stable_insert, append_sorted-stable_insert}
use fly_ruler_proto.Timeline.Ranges.{range_slice-range_filter}

abbrev one : F64
one = plus 0x3ff0_0000_0000_0000

abbrev two : F64
two = plus 0x4000_0000_0000_0000

-- Samples with a time and a mark; two of them have one time.
abbrev samples : List (F64 × ℕ)
samples = (one, 1) ∷ (one, 2) ∷ (two, 3) ∷ []

abbrev time_of : F64 × ℕ → F64
time_of s = s.0

samples-Sorted : Sorted time_of samples
unfolding is_finite le
samples-Sorted = (refl, (refl, (refl, tt)), (refl, (refl, tt), (refl, tt, tt)))

append_sorted-stable_insert_example :
    append_sorted time_of (one, 4) samples ≡ stable_insert time_of (one, 4) samples
append_sorted-stable_insert_example =
    append_sorted-stable_insert time_of (one, 4) samples samples-Sorted

one-le-two : le one two ≡ true
unfolding le
one-le-two = refl

range_slice-range_filter_example :
    range_slice time_of one two samples ≡ value (range_filter time_of one two samples)
range_slice-range_filter_example =
    range_slice-range_filter time_of one two samples one-le-two samples-Sorted

hex_of_bytes-injective_example : ◌≡◌ {A = List ℕ} (0xab ∷ []) (0xab ∷ [])
hex_of_bytes-injective_example =
    hex_of_bytes-injective (0xab ∷ []) (0xab ∷ []) (omega arith, tt) (omega arith, tt) refl
