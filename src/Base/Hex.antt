-- ===== src/Base/Hex.antt =====
-- `uuid_to_hex` of `core/src/utils.rs`: two lowercase hexadecimal digits for each byte.
use fly_ruler_proto.Base.{
  ℕ, ◌+◌, ◌-◌, ◌/◌, ◌%◌, ◌<◌, ◌≡◌, refl, List, [], ◌∷◌, arith, ltb, if◌then◌else◌, All,
}
use fly_ruler_proto.Base.Equality.{Str}

-- `HEX[digit]`, for a digit below 16.
abbrev pub hex_digit : ℕ → ℕ
hex_digit d = if ltb d 10 then b'0' + d else b'a' + (d - 10)

unfoldable pub hex_of_bytes : List ℕ → Str
hex_of_bytes [] = []
hex_of_bytes (b ∷ bs) = hex_digit (b / 16) ∷ hex_digit (b % 16) ∷ hex_of_bytes bs

-- Two lists of bytes with the same hexadecimal text are equal.
pub hex_of_bytes-injective :
    (xs ys : List ℕ)
    → All (λ b. b < 256) xs
    → All (λ b. b < 256) ys
    → hex_of_bytes xs ≡ hex_of_bytes ys
    → xs ≡ ys
unfolding hex_of_bytes
hex_of_bytes-injective [] [] hx hy e = refl
hex_of_bytes-injective [] (y ∷ ys) hx hy e = cc
hex_of_bytes-injective (x ∷ xs) [] hx hy e = cc
hex_of_bytes-injective (x ∷ xs) (y ∷ ys) hx hy e =
    ground (arith, hex_of_bytes-injective xs ys hx.1 hy.1)
