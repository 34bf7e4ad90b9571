-- ===== src/Cmd/Bytes.antt =====
-- The expressions by which haier_cmd.c takes a register apart: its bytes, and the two ways in which
-- a 12-bit value is put together from a nibble and a byte.
use haier_controller.Prelude.{
  ℕ, ◌+◌, ◌-◌, ◌*◌, ◌/◌, ◌%◌, ◌<◌, ◌≡◌, ℤ, pos, negsuc, bit_and, bit_or, arith, ltb, if◌then◌else◌,
  ◌<<◌, ◌>>◌, u8,
}
use haier_controller.Prelude.Int.{sub_ℕ}
use haier_controller.Prelude.Bits.{bit_and_0x0f, bit_and_0xff, bit_or_disjoint}

-- `(uint8_t)(reg >> 8)` and `(uint8_t)(reg & 0xFF)`
pub high_byte : ℕ → ℕ
high_byte reg = u8 (reg >> 8)

pub low_byte : ℕ → ℕ
low_byte reg = u8 (bit_and reg 0xff)

-- `((byte & 0x0F) << 8) | low` and `(((byte >> 4) & 0x0F) << 8) | low`
pub low12 : ℕ → ℕ → ℕ
low12 byte low = bit_or (bit_and byte 0x0f << 8) low

pub high12 : ℕ → ℕ → ℕ
high12 byte low = bit_or (bit_and (byte >> 4) 0x0f << 8) low

-- `raw > 2047 ? (int16_t)(raw - 4096) : (int16_t)raw`; the cast keeps every such value.
pub signed12 : ℕ → ℤ
signed12 raw = if ltb 2047 raw then sub_ℕ raw 4096 else pos raw

pub high_byte_lem : (reg : ℕ) → high_byte reg ≡ reg / 256 % 256
unfolding high_byte
high_byte_lem reg = omega arith

pub low_byte_lem : (reg : ℕ) → low_byte reg ≡ reg % 256
unfolding low_byte
low_byte_lem reg = omega (arith, bit_and_0xff reg)

pub low12_lem : (byte low : ℕ) → low < 256 → low12 byte low ≡ byte % 16 * 256 + low
unfolding low12
low12_lem byte low h = ground (arith, bit_and_0x0f byte, bit_or_disjoint 8 (byte % 16) low)

pub high12_lem : (byte low : ℕ) → low < 256 → high12 byte low ≡ byte / 16 % 16 * 256 + low
unfolding high12
high12_lem byte low h =
    ground (arith, bit_and_0x0f (byte / 16), bit_or_disjoint 8 (byte / 16 % 16) low)

-- Twelve bits in two's complement.
abbrev pub twelve : ℤ → ℕ
twelve (pos n) = n
twelve (negsuc n) = 4095 - n

abbrev pub IsSigned12 : ℤ → Type 0
IsSigned12 (pos n) = n < 2048
IsSigned12 (negsuc n) = n < 2048

pub signed12-twelve : (z : ℤ) → IsSigned12 z → signed12 (twelve z) ≡ z
unfolding signed12
signed12-twelve (pos n) h = ground arith
signed12-twelve (negsuc n) h = ground arith

pub twelve-lt : (z : ℤ) → IsSigned12 z → twelve z < 4096
twelve-lt (pos n) h = omega arith
twelve-lt (negsuc n) h = omega arith
