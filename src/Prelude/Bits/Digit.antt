-- ===== src/Prelude/Bits/Digit.antt =====
-- One binary digit of `&` and `|`. The native operations stand for `digits`, which halves both
-- numbers on fuel; here the fuel is shown not to matter, as soon as it is at least the first number.
use Prim.Native.Nat.{
  ℕ, zero, suc, ◌+◌, ◌*◌, ◌/◌, ◌%◌, ◌≤◌, min, max, digits, bit_and, bit_or, bit_and-bitwise,
  bit_or-bitwise,
}
use mathlib.Core.Path.{◌≡◌, refl, ◌∙◌}
use native.Mathlib.Decide.{dec_le}
use native.Mathlib.Omega.{arith}

module _ (rest : ℕ → ℕ) (op : ℕ → ℕ → ℕ) where
  abbrev joined : ℕ → ℕ → ℕ → ℕ
  joined fuel a b = digits rest op fuel a b

  -- One unit of spare fuel changes nothing.
  joined-suc : (fuel a b : ℕ) → a ≤ fuel → joined (suc fuel) a b ≡ joined fuel a b
  joined-suc zero zero b h = refl
  joined-suc zero (suc a) b h = elim h [ ]
  joined-suc (suc fuel) zero b h = refl
  joined-suc (suc fuel) (suc a) b h =
      omega (arith, joined-suc fuel (suc a / 2) (b / 2) (omega arith))

  -- So any fuel that is enough gives what the first number itself gives.
  joined-enough : (fuel a b : ℕ) → a ≤ fuel → joined fuel a b ≡ joined a a b
  joined-enough zero zero b h = refl
  joined-enough zero (suc a) b h = elim h [ ]
  joined-enough (suc fuel) a b h = elim (dec_le a fuel) [
    | yes below ↦ joined-suc fuel a b below ∙ joined-enough fuel a b below
    | no top ↦ rw (last_fuel top h)
  ]
    where
      last_fuel : ¬ (a ≤ fuel) → a ≤ suc fuel → a ≡ suc fuel
      last_fuel top h = omega arith

  -- The lowest digit, and the rest.
  joined-digit :
      (a b : ℕ)
      → joined (suc a) (suc a) b
        ≡ joined (suc a / 2) (suc a / 2) (b / 2) * 2 + op (suc a % 2) (b % 2)
  joined-digit a b = omega (arith, joined-enough a (suc a / 2) (b / 2) (omega arith))

pub bit_and-digit : (a b : ℕ) → bit_and a b ≡ bit_and (a / 2) (b / 2) * 2 + min (a % 2) (b % 2)
bit_and-digit zero b = simp bit_and-bitwise (omega arith)
bit_and-digit (suc a) b = simp bit_and-bitwise (joined-digit (λ x. 0) min a b)

pub bit_or-digit : (a b : ℕ) → bit_or a b ≡ bit_or (a / 2) (b / 2) * 2 + max (a % 2) (b % 2)
bit_or-digit zero b = simp bit_or-bitwise (omega arith)
bit_or-digit (suc a) b = simp bit_or-bitwise (joined-digit (λ x. x) max a b)
