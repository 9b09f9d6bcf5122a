-- ===== src/Float.antt =====
-- IEEE 754 binary64 values as bit patterns: what the program uses of `f64` comparisons.
use fly_ruler_proto.Base.{ℕ, ◌≡◌, Bool, true, false, not, ◌&&◌, ltb, leb, eqb, arith, if◌then◌else◌}

-- The sign bit is the constructor, the argument the other 63 bits.
pub data F64 : Type 0 where
  plus : ℕ → F64
  minus : ℕ → F64

abbrev pub infinity_bits : ℕ
infinity_bits = 0x7ff0_0000_0000_0000

abbrev pub magnitude : F64 → ℕ
magnitude (plus m) = m
magnitude (minus m) = m

unfoldable pub is_finite : F64 → Bool
is_finite x = ltb (magnitude x) infinity_bits

unfoldable pub is_nan : F64 → Bool
is_nan x = ltb infinity_bits (magnitude x)

-- The order of two values neither of which is a NaN. The two zeros are equal.
abbrev le_bits : F64 → F64 → Bool
le_bits (plus a) (plus b) = leb a b
le_bits (minus a) (minus b) = leb b a
le_bits (minus a) (plus b) = true
le_bits (plus a) (minus b) = eqb a 0 && eqb b 0

-- `x <= y`.
unfoldable pub le : F64 → F64 → Bool
unfolding is_nan
le x y = not (is_nan x) && (not (is_nan y) && le_bits x y)

-- `x < y`.
unfoldable pub lt : F64 → F64 → Bool
unfolding is_nan
lt x y = not (is_nan x) && (not (is_nan y) && not (le_bits y x))

-- `x.total_cmp(&y).is_lt()`.
unfoldable pub total_lt : F64 → F64 → Bool
total_lt (plus a) (plus b) = ltb a b
total_lt (minus a) (minus b) = ltb b a
total_lt (minus a) (plus b) = true
total_lt (plus a) (minus b) = false

pub le_refl : (x : F64) → is_finite x ≡ true → le x x ≡ true
unfolding le is_finite
le_refl (plus a) h = ground arith
le_refl (minus a) h = ground arith

pub le_trans : (x y z : F64) → le x y ≡ true → le y z ≡ true → le x z ≡ true
unfolding le
le_trans (plus a) (plus b) (plus c) p q = ground arith
le_trans x y z p q = ground arith

pub le-of_lt : (x y : F64) → lt x y ≡ true → le x y ≡ true
unfolding le lt
le-of_lt (plus a) (plus b) p = ground arith
le-of_lt x y p = ground arith

pub lt-eq-not-le : (x y : F64) → is_finite x ≡ true → is_finite y ≡ true → lt x y ≡ not (le y x)
unfolding le lt is_finite
lt-eq-not-le (plus a) (plus b) p q = ground arith
lt-eq-not-le x y p q = ground arith

pub total_lt-of_lt : (x y : F64) → lt x y ≡ true → total_lt x y ≡ true
unfolding lt total_lt
total_lt-of_lt (plus a) (plus b) p = ground arith
total_lt-of_lt x y p = ground arith

pub not_nan-of_finite : (x : F64) → is_finite x ≡ true → is_nan x ≡ false
unfolding is_finite is_nan
not_nan-of_finite (plus a) h = ground arith
not_nan-of_finite (minus a) h = ground arith

pub not_nan-of_le : (x y : F64) → le x y ≡ true → (is_nan x ≡ false) × (is_nan y ≡ false)
unfolding le
not_nan-of_le x y h = ground arith

-- The same between any two values that are not NaNs.
pub not_lt-of_le : (x y : F64) → le x y ≡ true → lt y x ≡ false
unfolding le lt
not_lt-of_le (plus a) (plus b) p = ground arith
not_lt-of_le x y p = ground arith

pub le-of_not_lt :
    (x y : F64) → is_nan x ≡ false → is_nan y ≡ false → lt y x ≡ false → le x y ≡ true
unfolding le lt
le-of_not_lt (plus a) (plus b) p q r = ground arith
le-of_not_lt x y p q r = ground arith

pub lt-of_not_le :
    (x y : F64) → is_nan x ≡ false → is_nan y ≡ false → le x y ≡ false → lt y x ≡ true
unfolding le lt
lt-of_not_le (plus a) (plus b) p q r = ground arith
lt-of_not_le x y p q r = ground arith

pub lt-of_le-lt : (x y z : F64) → le x y ≡ true → lt y z ≡ true → lt x z ≡ true
unfolding le lt
lt-of_le-lt (plus a) (plus b) (plus c) p q = ground arith
lt-of_le-lt x y z p q = ground arith

pub lt-of_lt-le : (x y z : F64) → lt x y ≡ true → le y z ≡ true → lt x z ≡ true
unfolding le lt
lt-of_lt-le (plus a) (plus b) (plus c) p q = ground arith
lt-of_lt-le x y z p q = ground arith

pub not_lt_self : (x : F64) → lt x x ≡ false
unfolding lt
not_lt_self (plus a) = ground arith
not_lt_self (minus a) = ground arith

-- `total_cmp` refines the numeric order.
pub le-of_not_total_lt :
    (x y : F64) → is_nan x ≡ false → is_nan y ≡ false → total_lt y x ≡ false → le x y ≡ true
unfolding le total_lt
le-of_not_total_lt (plus a) (plus b) p q r = ground arith
le-of_not_total_lt x y p q r = ground arith

pub le-of_total_lt :
    (x y : F64) → is_nan x ≡ false → is_nan y ≡ false → total_lt x y ≡ true → le x y ≡ true
unfolding le total_lt
le-of_total_lt (plus a) (plus b) p q r = ground arith
le-of_total_lt x y p q r = ground arith

-- `f64::min` and `f64::max`: a NaN loses against a number. On zeros of both signs Rust leaves the
-- choice open; here the first argument is kept.
unfoldable pub fmin : F64 → F64 → F64
fmin x y = if is_nan x then y else if is_nan y then x else if lt y x then y else x

unfoldable pub fmax : F64 → F64 → F64
fmax x y = if is_nan x then y else if is_nan y then x else if lt x y then y else x

-- The smaller of two finite values is one of them and at most both; so the larger.
pub fmin_lem :
    (x y : F64)
    → is_finite x ≡ true
    → is_finite y ≡ true
    → (is_finite (fmin x y) ≡ true) × (le (fmin x y) x ≡ true) × (le (fmin x y) y ≡ true)
unfolding fmin
fmin_lem x y f g = ground (
  arith,
  not_nan-of_finite x f,
  not_nan-of_finite y g,
  le_refl x f,
  le_refl y g,
  le-of_lt y x,
  le-of_not_lt x y,
)

pub fmax_lem :
    (x y : F64)
    → is_finite x ≡ true
    → is_finite y ≡ true
    → (is_finite (fmax x y) ≡ true) × (le x (fmax x y) ≡ true) × (le y (fmax x y) ≡ true)
unfolding fmax
fmax_lem x y f g = ground (
  arith,
  not_nan-of_finite x f,
  not_nan-of_finite y g,
  le_refl x f,
  le_refl y g,
  le-of_lt x y,
  le-of_not_lt y x,
)

pub finite_between :
    (a x b : F64)
    → is_finite a ≡ true
    → is_finite b ≡ true
    → le a x ≡ true
    → le x b ≡ true
    → is_finite x ≡ true
unfolding le is_finite
finite_between (plus a) (plus x) (plus b) f g p q = ground arith
finite_between a x b f g p q = ground arith
