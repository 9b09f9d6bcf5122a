-- ===== src/Cursor/Checksum.antt =====
-- `checksum32` of `core/src/cursor.rs`: the CRC-32 of a payload, bit by bit.
use fly_ruler_proto.Base.{ℕ, zero, suc, ◌+◌, ◌-◌, ◌*◌, ◌/◌, ◌%◌, List, [], ◌∷◌, eqb, if◌then◌else◌}

-- The exclusive or of the low bits.
abbrev pub xor_bits : ℕ → ℕ → ℕ → ℕ
xor_bits zero a b = 0
xor_bits (suc n) a b = (a + b) % 2 + 2 * xor_bits n (a / 2) (b / 2)

abbrev pub xor32 : ℕ → ℕ → ℕ
xor32 a b = xor_bits 32 a b

-- `(crc >> 1) ^ (0xedb8_8320 & 0.wrapping_sub(crc & 1))`, so many times.
abbrev pub shift_bits : ℕ → ℕ → ℕ
shift_bits zero crc = crc
shift_bits (suc n) crc = shift_bits n (xor32 (crc / 2) (if eqb (crc % 2) 1 then 0xedb8_8320 else 0))

abbrev pub crc_from : ℕ → List ℕ → ℕ
crc_from crc [] = crc
crc_from crc (byte ∷ bytes) = crc_from (shift_bits 8 (xor32 crc byte)) bytes

unfoldable pub checksum32 : List ℕ → ℕ
checksum32 payload = 0xffff_ffff - crc_from 0xffff_ffff payload
