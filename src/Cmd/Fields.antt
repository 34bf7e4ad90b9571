-- ===== src/Cmd/Fields.antt =====
-- 12-bit quantities in two's complement, split over registers: a nibble here and a byte there, in the
-- four ways in which the frames hold them, and what the getters' expressions make of each.
use haier_controller.Prelude.{ℕ, ℤ, ◌+◌, ◌*◌, ◌/◌, ◌%◌, ◌<◌, ◌≡◌, refl, ap, ◌∙◌, arith}
use haier_controller.Cmd.Bytes.{
  high_byte, low_byte, low12, high12, signed12, twelve, IsSigned12, high_byte_lem, low_byte_lem,
  low12_lem, high12_lem, signed12-twelve, twelve-lt,
}

-- The top nibble and the low byte of a 12-bit quantity.
abbrev pub nib : ℤ → ℕ
nib z = twelve z / 256

abbrev pub low : ℤ → ℕ
low z = twelve z % 256

abbrev pub word : ℕ → ℕ → ℕ
word hi lo = hi * 256 + lo

-- A byte with the top nibble below, or above, and the low byte give the quantity back.
low12-field :
    (byte lo : ℕ) (z : ℤ)
    → IsSigned12 z
    → byte % 16 ≡ nib z
    → lo ≡ low z
    → signed12 (low12 byte lo) ≡ z
low12-field byte lo z h p q =
    ap signed12 (sum_is_twelve (low12_lem byte lo (omega arith))) ∙ signed12-twelve z h
  where
    sum_is_twelve : low12 byte lo ≡ byte % 16 * 256 + lo → low12 byte lo ≡ twelve z
    sum_is_twelve e = omega arith

high12-field :
    (byte lo : ℕ) (z : ℤ)
    → IsSigned12 z
    → byte / 16 % 16 ≡ nib z
    → lo ≡ low z
    → signed12 (high12 byte lo) ≡ z
high12-field byte lo z h p q =
    ap signed12 (sum_is_twelve (high12_lem byte lo (omega arith))) ∙ signed12-twelve z h
  where
    sum_is_twelve : high12 byte lo ≡ byte / 16 % 16 * 256 + lo → high12 byte lo ≡ twelve z
    sum_is_twelve e = omega arith

pub high_byte-word : (hi lo : ℕ) → hi < 256 → lo < 256 → high_byte (word hi lo) ≡ hi
high_byte-word hi lo p q = omega (arith, high_byte_lem (word hi lo))

pub low_byte-word : (hi lo : ℕ) → lo < 256 → low_byte (word hi lo) ≡ lo
low_byte-word hi lo q = omega (arith, low_byte_lem (word hi lo))

-- The register that holds the top nibbles of two quantities in its low byte, and those in its high.
low_nibbles :
    (hi : ℕ) (y x : ℤ)
    → IsSigned12 y
    → IsSigned12 x
    → let b = low_byte (word hi (nib y * 16 + nib x)) in (b % 16 ≡ nib x) × (b / 16 % 16 ≡ nib y)
low_nibbles hi y x p q =
    omega (arith, low_byte_lem (word hi (nib y * 16 + nib x)), twelve-lt y p, twelve-lt x q)

high_nibbles :
    (y x : ℤ) (lo : ℕ)
    → IsSigned12 y
    → IsSigned12 x
    → lo < 256
    → let b = high_byte (word (nib y * 16 + nib x) lo) in (b % 16 ≡ nib x) × (b / 16 % 16 ≡ nib y)
high_nibbles y x lo p q h =
    omega (arith, high_byte_lem (word (nib y * 16 + nib x) lo), twelve-lt y p, twelve-lt x q)

pub nibbles-lt : (y x : ℤ) → IsSigned12 y → IsSigned12 x → nib y * 16 + nib x < 256
nibbles-lt y x p q = omega (arith, twelve-lt y p, twelve-lt x q)

-- The four places of a 12-bit quantity: nibble in the low or the high byte, below or above.
pub low_byte_below :
    (hi : ℕ) (y x : ℤ)
    → IsSigned12 y
    → IsSigned12 x
    → signed12 (low12 (low_byte (word hi (nib y * 16 + nib x))) (low x)) ≡ x
low_byte_below hi y x p q = low12-field _ _ x q (low_nibbles hi y x p q).0 refl

pub low_byte_above :
    (hi : ℕ) (y x : ℤ)
    → IsSigned12 y
    → IsSigned12 x
    → signed12 (high12 (low_byte (word hi (nib y * 16 + nib x))) (low y)) ≡ y
low_byte_above hi y x p q = high12-field _ _ y p (low_nibbles hi y x p q).1 refl

pub high_byte_below :
    (y x : ℤ) (lo : ℕ)
    → IsSigned12 y
    → IsSigned12 x
    → lo < 256
    → signed12 (low12 (high_byte (word (nib y * 16 + nib x) lo)) (low x)) ≡ x
high_byte_below y x lo p q h = low12-field _ _ x q (high_nibbles y x lo p q h).0 refl

pub high_byte_above :
    (y x : ℤ) (lo : ℕ)
    → IsSigned12 y
    → IsSigned12 x
    → lo < 256
    → signed12 (high12 (high_byte (word (nib y * 16 + nib x) lo)) (low y)) ≡ y
high_byte_above y x lo p q h = high12-field _ _ y p (high_nibbles y x lo p q h).1 refl

pub low-lt : (z : ℤ) → low z < 256
low-lt z = omega arith
