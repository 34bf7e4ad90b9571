-- ===== src/Floats/Exact.antt =====
-- One value of the parameter: fractions, with an element that is not a number. It stands in for the
-- machine's arithmetic wherever a theorem is applied to concrete numbers.
use mathlib.Core.Bool.{false≢true}
use haier_controller.Prelude.{
  ℕ, suc, ◌+◌, ◌-◌, ◌*◌, ◌/◌, ◌≤◌, ◌<◌, ◌≡◌, ℤ, pos, negsuc, Bool, false, Option, none, some, ltb,
  leb, if◌then◌else◌, arith,
}
use haier_controller.Prelude.Int.{sub_ℕ}
use haier_controller.Floats.{Floats, Rounds}

-- (up - down) / (less + 1)
pub record Ratio : Type 0 where
  pub up : ℕ
  pub down : ℕ
  pub less : ℕ

abbrev pub over : Ratio → ℕ
over a = suc a.less

abbrev pub Number : Type 0
Number = Option Ratio

abbrev lift : (Ratio → Ratio → Number) → Number → Number → Number
lift f (some a) (some b) = f a b
lift f _ _ = none

abbrev add_ratio : Ratio → Ratio → Number
add_ratio a b = some (record {
  up = a.up * over b + b.up * over a;
  down = a.down * over b + b.down * over a;
  less = over a * over b - 1;
})

abbrev mul_ratio : Ratio → Ratio → Number
mul_ratio a b = some (record {
  up = a.up * b.up + a.down * b.down;
  down = a.up * b.down + a.down * b.up;
  less = over a * over b - 1;
})

abbrev div_ratio : Ratio → Ratio → Number
div_ratio a b =
    if ltb b.down b.up
    then some
        (record { up = a.up * over b; down = a.down * over b; less = over a * (b.up - b.down) - 1 })
    else (if ltb b.up b.down
        then some (record {
          up = a.down * over b;
          down = a.up * over b;
          less = over a * (b.down - b.up) - 1;
        })
        else none)

abbrev less_than : Number → Number → Bool
less_than (some a) (some b) =
    ltb (a.up * over b + b.down * over a) (b.up * over a + a.down * over b)
less_than _ _ = false

abbrev integral : Number → Option ℤ
integral none = none
integral (some a) =
    if leb a.down a.up
    then some (pos ((a.up - a.down) / over a))
    else some (sub_ℕ 0 ((a.down - a.up) / over a))

abbrev whole : ℤ → Number
whole (pos n) = some (record { up = n; down = 0; less = 0 })
whole (negsuc n) = some (record { up = 0; down = suc n; less = 0 })

abbrev pub exact : Floats
exact = record {
  Float = Number;
  of_int = whole;
  literal = λ n d. some (record { up = n * 10 + d; down = 0; less = 9 });
  add = lift add_ratio;
  mul = lift mul_ratio;
  div = lift div_ratio;
  flt = less_than;
  trunc = integral;
}

-- n / 2
abbrev pub half : ℕ → Number
half n = some (record { up = n; down = 0; less = 1 })

-- 20 x / 10 d lies between 12 and 100, if x / d lies between 6 and 50.
cut_bounds :
    (x d : ℕ)
    → 0 < d
    → 6 * d ≤ x
    → x ≤ 50 * d
    → (12 ≤ (x * 20) / (d * 10)) × ((x * 20) / (d * 10) ≤ 100)
cut_bounds x d p lo hi = grind arith

guard_low : (a : Ratio) → less_than (some a) (whole (pos 6)) ≡ false → 6 * over a + a.down ≤ a.up
guard_low a h = ground arith

guard_high : (a : Ratio) → less_than (whole (pos 50)) (some a) ≡ false → a.up ≤ 50 * over a + a.down
guard_high a h = ground arith

doubled :
    (a : Ratio)
    → a.down ≤ a.up
    → integral (lift mul_ratio (some a) (some (record { up = 20; down = 0; less = 9 })))
      ≡ some (pos (((a.up - a.down) * 20) / (over a * 10)))
doubled a h = ground arith

exact-range :
    (t : Number) (z : ℤ)
    → integral t ≡ some z
    → less_than t (whole (pos 6)) ≡ false
    → less_than (whole (pos 50)) t ≡ false
    → (n : ℕ) × (integral (lift mul_ratio t (some (record { up = 20; down = 0; less = 9 })))
        ≡ some (pos n))
      × (12 ≤ n)
      × (n ≤ 100)
exact-range none z e lo hi = absurd (false≢true (ground arith))
exact-range (some a) z e lo hi =
    let low = guard_low a lo in
    let high = guard_high a hi in
    let bounds = cut_bounds (a.up - a.down) (over a) (omega arith) (omega arith) (omega arith) in
    (((a.up - a.down) * 20) / (over a * 10), doubled a (omega arith), bounds.0, bounds.1)

pub exact-Rounds : Rounds exact
exact-Rounds = record { in_range = exact-range }
