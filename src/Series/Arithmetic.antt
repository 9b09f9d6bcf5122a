-- ===== src/Series/Arithmetic.antt =====
-- What `core/src/management/series.rs` uses of binary64 arithmetic and of the attitude's angles.
use fly_ruler_proto.Base.{ℕ, ◌≤◌, ◌<◌, ◌≡◌, true, Option}
use fly_ruler_proto.Base.Int.{ℤ}
use fly_ruler_proto.Float.{F64, plus, is_finite, le}
use fly_ruler_proto.Pb.{Quaternion}

-- `to_usize` is `x.floor() as usize`; `euler` is `Attitude::try_from` and then `euler`, which
-- `core/src/attitude.rs` takes from nalgebra: roll, pitch and yaw, absent for no unit quaternion.
pub record Arithmetic : Type 0 where
  pub of_usize : ℕ → F64
  pub of_i64 : ℤ → F64
  pub to_usize : F64 → ℕ
  pub sum : F64 → F64 → F64
  pub difference : F64 → F64 → F64
  pub product : F64 → F64 → F64
  pub quotient : F64 → F64 → F64
  pub abs : F64 → F64
  pub euler : Quaternion → Option (F64 × F64 × F64)

-- The integers up to this bound are binary64 values.
abbrev pub exact_limit : ℕ
exact_limit = 0x20_0000_0000_0000

-- What IEEE 754 rounding guarantees of the operations on indices: conversions and products are
-- monotone, an integer converts exactly, and fewer than `k` parts of `m` cut into `k` are at most
-- `m`.
pub record IsRounded (a : Arithmetic) : Type 0 where
  pub to_usize_mono : (x y : F64) → le x y ≡ true → a.to_usize x ≤ a.to_usize y
  pub to_usize-of_usize : (m : ℕ) → m < exact_limit → a.to_usize (a.of_usize m) ≡ m
  pub product_mono :
      (b c : ℕ) (k : F64)
      → b ≤ c
      → c < exact_limit
      → is_finite k ≡ true
      → le (plus 0) k ≡ true
      → le (a.product (a.of_usize b) k) (a.product (a.of_usize c) k) ≡ true
  pub quotient-of_usize :
      (m k : ℕ)
      → m < exact_limit
      → 0 < k
      → k < exact_limit
      → (is_finite (a.quotient (a.of_usize m) (a.of_usize k)) ≡ true)
        × (le (plus 0) (a.quotient (a.of_usize m) (a.of_usize k)) ≡ true)
  pub product-quotient :
      (b m k : ℕ)
      → b < k
      → m < exact_limit
      → k < exact_limit
      → le (a.product (a.of_usize b) (a.quotient (a.of_usize m) (a.of_usize k))) (a.of_usize m)
        ≡ true
