-- ===== src/Prelude/Words.antt =====
-- The casts of C to unsigned and signed fixed widths, and its shifts, on native numbers.
use Prim.Native.Nat.{ℕ, ◌-◌, ◌*◌, ◌/◌, ◌%◌, ◌^◌}
use haier_controller.Prelude.Tests.{ltb, if◌then◌else◌}
use haier_controller.Prelude.Int.{ℤ, pos, negsuc}

abbrev pub u8 : ℕ → ℕ
u8 n = n % 256

abbrev pub u16 : ℕ → ℕ
u16 n = n % 65536

infixl 75 ◌<<◌ ◌>>◌
abbrev pub ◌<<◌ : ℕ → ℕ → ℕ
x << k = x * 2 ^ k

abbrev pub ◌>>◌ : ℕ → ℕ → ℕ
x >> k = x / 2 ^ k

-- `BIT(k)`
abbrev pub bit : ℕ → ℕ
bit k = 2 ^ k

-- The casts of an unsigned value to `int8_t` and `int16_t`: two's complement.
abbrev pub i8 : ℕ → ℤ
i8 n = if ltb (n % 256) 128 then pos (n % 256) else negsuc (255 - n % 256)

abbrev pub i16 : ℕ → ℤ
i16 n = if ltb (n % 65536) 32768 then pos (n % 65536) else negsuc (65535 - n % 65536)
