-- ===== src/Driver/Registers/Kept.antt =====
-- The words that parse_registers stores.
use haier_controller.Prelude.{
  ℕ, zero, suc, ◌+◌, ◌*◌, ◌<◌, List, [], ◌∷◌, Option, none, some, arith, length, set, u16, ltb, inl,
  inr, get_elem?, bit_or, ◌<<◌, Bool-cases,
}
use haier_controller.Cmd.Types.{◌>>=◌}
use haier_controller.Cmd.Set.{store}
use haier_controller.Driver.Registers.{parse_loop, parse_registers}
use haier_controller.Driver.Registers.Laws.{IsWords}

-- What holds of the result, if there is one.
abbrev pub If : {A : Type 0} → (A → Type 0) → Option A → Type 0
If P none = Unit
If P (some x) = P x

If-any :
    {A B : Type 0} (P : B → Type 0) (o : Option A) (f : A → Option B)
    → ((x : A) → If P (f x))
    → If P (o >>= f)
If-any P none f h = tt
If-any P (some x) f h = h x

set-IsWords : (out : List ℕ) (i v : ℕ) → v < 65536 → IsWords out → IsWords (set out i v)
set-IsWords [] i v h w = w
set-IsWords (x ∷ xs) zero v h w = (h, w.1)
set-IsWords (x ∷ xs) (suc i) v h w = (w.0, set-IsWords xs i v h w.1)

store-IsWords : (out : List ℕ) (i v : ℕ) → IsWords out → If IsWords (store out i (u16 v))
unfolding store
store-IsWords out i v w = elim (Bool-cases (ltb i (length out))) [
  | inl e ↦ rw e (set-IsWords out i (u16 v) (omega arith) w)
  | inr e ↦ rw e tt
]

pub If-bind :
    {A B : Type 0} (P : B → Type 0) (Q : A → Type 0) (o : Option A) (f : A → Option B)
    → If Q o
    → ((x : A) → Q x → If P (f x))
    → If P (o >>= f)
If-bind P Q none f q h = tt
If-bind P Q (some x) f q h = h x q

parse_loop-IsWords :
    (raw : List ℕ) (left i : ℕ) (out : List ℕ)
    → IsWords out
    → If IsWords (parse_loop raw left i out)
unfolding parse_loop
parse_loop-IsWords raw zero i out w = w
parse_loop-IsWords raw (suc left) i out w = If-any IsWords (get_elem? raw (i * 2)) _ λ hi.
    If-any IsWords (get_elem? raw (i * 2 + 1)) _ λ lo.
      If-bind IsWords IsWords (store out i (u16 (bit_or (hi << 8) lo))) _
        (store-IsWords out i (bit_or (hi << 8) lo) w)
        (λ out' w'. parse_loop-IsWords raw left (i + 1) out' w')

-- Whatever the payload is, the array holds words of 16 bits.
pub parse_registers-IsWords :
    (raw out : List ℕ) (len : ℕ) → IsWords out → If IsWords (parse_registers raw out len)
unfolding parse_registers
parse_registers-IsWords raw out len w = parse_loop-IsWords raw len 0 out w
