-- ===== src/Prelude/Bits.antt =====
-- `&` with a mask and `|` of disjoint fields, as arithmetic: the facts that the register code needs.
mod Digit
use Digit.{bit_and-digit, bit_or-digit}
use Prim.Native.Nat.{ℕ, zero, suc, ◌+◌, ◌*◌, ◌/◌, ◌%◌, ◌≤◌, ◌<◌, ◌^◌, bit_and, bit_or}
use mathlib.Core.Path.{◌≡◌, refl}
use mathlib.Core.Path.{ap}
use mathlib.Core.Bool.{Bool, true, false, ◌&&◌}
use native.Mathlib.Decide.{dec_lt}
use native.Mathlib.Nat.{pow-suc, one-le-pow}
use native.Mathlib.Omega.{arith}
use haier_controller.Prelude.Tests.{◌==◌, ◌!=◌}

-- `bound` is fuel for the halving of `a`.
and_zero_within : (bound a : ℕ) → a ≤ bound → bit_and a 0 ≡ 0
and_zero_within bound zero h = refl
and_zero_within zero (suc a) h = elim h [ ]
and_zero_within (suc bound) (suc a) h =
    omega (arith, bit_and-digit (suc a) 0, and_zero_within bound (suc a / 2) (omega arith))

or_zero_within : (bound a : ℕ) → a ≤ bound → bit_or a 0 ≡ a
or_zero_within bound zero h = refl
or_zero_within zero (suc a) h = elim h [ ]
or_zero_within (suc bound) (suc a) h =
    omega (arith, bit_or-digit (suc a) 0, or_zero_within bound (suc a / 2) (omega arith))

bit_and-zero : (a : ℕ) → bit_and a 0 ≡ 0
bit_and-zero a = and_zero_within a a (omega arith)

bit_or-zero : (a : ℕ) → bit_or a 0 ≡ a
bit_or-zero a = or_zero_within a a (omega arith)

double_pow : (q k : ℕ) → q * 2 ^ suc k ≡ q * 2 ^ k * 2
double_pow q k = omega (arith, ap (λ (t : ℕ). q * t) (pow-suc 2 k))

-- `|` puts together two values that share no bit: a multiple of `2 ^ k`, and a value below `2 ^ k`.
pub bit_or_disjoint : (k q r : ℕ) → r < 2 ^ k → bit_or (q * 2 ^ k) r ≡ q * 2 ^ k + r
bit_or_disjoint zero q r h = ground (arith, bit_or-zero q)
bit_or_disjoint (suc k) q r h = ground (
  arith,
  double_pow q k,
  bit_or-digit (q * 2 ^ suc k) r,
  pow-suc 2 k,
  bit_or_disjoint k q (r / 2) (omega (arith, pow-suc 2 k)),
)

-- A mask that is even looks at the number without its lowest digit; an odd one keeps that digit.
bit_and_even : (a m : ℕ) → bit_and a (m * 2) ≡ bit_and (a / 2) m * 2
bit_and_even a m = ground (arith, bit_and-digit a (m * 2))

bit_and_odd : (a m : ℕ) → bit_and a (m * 2 + 1) ≡ bit_and (a / 2) m * 2 + a % 2
bit_and_odd a m = ground (arith, bit_and-digit a (m * 2 + 1))

-- The masks of the source: the low nibble, the low byte, the low twelve bits and the high byte.
pub bit_and_0x0f : (a : ℕ) → bit_and a 0x0f ≡ a % 16
bit_and_0x0f a = omega (
  arith,
  bit_and_odd a 7,
  bit_and_odd (a / 2) 3,
  bit_and_odd (a / 2 / 2) 1,
  bit_and_odd (a / 2 / 2 / 2) 0,
  bit_and-zero (a / 2 / 2 / 2 / 2),
)

and_nibble : (a m : ℕ) → bit_and a (m * 16 + 15) ≡ bit_and (a / 16) m * 16 + a % 16
and_nibble a m = ground (
  arith,
  bit_and_odd a (m * 8 + 7),
  bit_and_odd (a / 2) (m * 4 + 3),
  bit_and_odd (a / 2 / 2) (m * 2 + 1),
  bit_and_odd (a / 2 / 2 / 2) m,
)

pub bit_and_0xff : (a : ℕ) → bit_and a 0xff ≡ a % 256
bit_and_0xff a = omega (arith, and_nibble a 15, bit_and_0x0f (a / 16))

pub bit_and_0xfff : (a : ℕ) → bit_and a 0xfff ≡ a % 4096
bit_and_0xfff a = omega (arith, and_nibble a 255, bit_and_0xff (a / 16))

pub bit_and_0xff00 : (a : ℕ) → bit_and a 0xff00 ≡ a / 256 % 256 * 256
bit_and_0xff00 a = omega (
  arith,
  bit_and_even a 0x7f80,
  bit_and_even (a / 2) 0x3fc0,
  bit_and_even (a / 2 / 2) 0x1fe0,
  bit_and_even (a / 2 / 2 / 2) 0xff0,
  bit_and_even (a / 2 / 2 / 2 / 2) 0x7f8,
  bit_and_even (a / 2 / 2 / 2 / 2 / 2) 0x3fc,
  bit_and_even (a / 2 / 2 / 2 / 2 / 2 / 2) 0x1fe,
  bit_and_even (a / 2 / 2 / 2 / 2 / 2 / 2 / 2) 0xff,
  bit_and_0xff (a / 2 / 2 / 2 / 2 / 2 / 2 / 2 / 2),
)

-- The binary digit at place `k`, lowest first, and `BIT(k)` as a mask for it.
abbrev pub digit : ℕ → ℕ → ℕ
digit zero x = x % 2
digit (suc k) x = digit k (x / 2)

pub digit-lt : (k x : ℕ) → digit k x < 2
digit-lt zero x = omega arith
digit-lt (suc k) x = digit-lt k (x / 2)

bit_and-pow : (k x : ℕ) → bit_and x (2 ^ k) ≡ digit k x * 2 ^ k
bit_and-pow zero x = omega (arith, bit_and_odd x 0, bit_and-zero (x / 2))
bit_and-pow (suc k) x = ground (
  arith,
  pow-suc 2 k,
  double_pow (digit k (x / 2)) k,
  bit_and_even x (2 ^ k),
  bit_and-pow k (x / 2),
)

digit_one : (k x : ℕ) → 0 < digit k x → digit k x ≡ 1
digit_one k x h = omega (arith, digit-lt k x)

digit_zero : (k x : ℕ) → ¬ (0 < digit k x) → digit k x ≡ 0
digit_zero k x h = omega arith

-- `x & BIT(k)` as a condition.
unfoldable pub has_bit : ℕ → ℕ → Bool
has_bit x k = bit_and x (2 ^ k) != 0

pub has_bit-digit : (k x : ℕ) → has_bit x k ≡ (digit k x == 1)
unfolding has_bit
has_bit-digit k x = elim (dec_lt 0 (digit k x)) [
  | yes one ↦ ground (arith, digit_one k x one, bit_and-pow k x, one-le-pow k 2)
  | no none ↦ ground (arith, digit_zero k x none, bit_and-pow k x)
]

-- A test that holds of every number below a numeral, by evaluation.
unfoldable pub all_below : ℕ → (ℕ → Bool) → Bool
all_below zero test = true
all_below (suc n) test = test n && all_below n test

pub all_below_elim :
    (n : ℕ) (test : ℕ → Bool) (x : ℕ) → all_below n test ≡ true → x < n → test x ≡ true
unfolding all_below
all_below_elim zero test x h lt = absurd (omega arith)
all_below_elim (suc n) test x h lt = ground (arith, all_below_elim n test x)
