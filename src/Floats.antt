-- ===== src/Floats.antt =====
-- Single-precision arithmetic: the type `float` and its operations are the compiler's, so they are a
-- parameter of everything that computes with them. `Floats/Exact.antt` gives one value of it.
pub mod Exact
use haier_controller.Prelude.{
  ℕ, ◌<◌, ◌≡◌, arith, ℤ, pos, negsuc, Bool, true, false, ◌≤◌, Option, none, some, ltb,
  if◌then◌else◌,
}

pub record Floats : Type 1 where
  pub Float : Type 0
  -- `(float)i`, also where C converts an `int` operand
  pub of_int : ℤ → Float
  -- `literal 30 0` is `30.0f`, and `literal 0 2` is `0.2f`.
  pub literal : ℕ → ℕ → Float
  pub add : Float → Float → Float
  pub mul : Float → Float → Float
  pub div : Float → Float → Float
  -- `<`, which is false where either side is not a number
  pub flt : Float → Float → Bool
  -- The integral part, or `none` where the value is not a finite number.
  pub trunc : Float → Option ℤ

-- What the guard of the temperature setters relies on: doubling and cutting a number from 6 to 50
-- gives an integer from 12 to 100.
pub record Rounds (F : Floats) : Type 0 where
  pub in_range :
      (t : F.Float) (z : ℤ)
      → F.trunc t ≡ some z
      → F.flt t (F.of_int (pos 6)) ≡ false
      → F.flt (F.of_int (pos 50)) t ≡ false
      → (n : ℕ) × (F.trunc (F.mul t (F.literal 2 0)) ≡ some (pos n)) × (12 ≤ n) × (n ≤ 100)

-- The cast to an unsigned integer type with values below `bound`. C leaves it undefined where the
-- integral part is outside that range: `none`.
abbrev pub below : ℕ → Option ℤ → Option ℕ
below bound none = none
below bound (some (pos n)) = if ltb n bound then some n else none
below bound (some (negsuc n)) = none

pub below_lem : (bound n : ℕ) → n < bound → below bound (some (pos n)) ≡ some n
below_lem bound n h = ground arith

module _ (F : Floats) where
  -- `(uint8_t)x` and `(uint16_t)x`
  abbrev pub to_u8 : F.Float → Option ℕ
  to_u8 x = below 256 (F.trunc x)

  abbrev pub to_u16 : F.Float → Option ℕ
  to_u16 x = below 65536 (F.trunc x)
