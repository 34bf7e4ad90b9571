-- ===== src/Driver/Registers/Total.antt =====
-- parse_registers over any payload.
use haier_controller.Prelude.{
  ℕ, zero, suc, ◌+◌, ◌*◌, ◌<◌, ◌≡◌, refl, ◌∙◌, List, some, arith, length, length-set, get_or, set,
  get_elem?-eq-get_or, bit_or, u16, ◌<<◌,
}
use haier_controller.Cmd.Set.{store}
use haier_controller.Driver.Registers.{parse_loop, parse_registers}

store-set : (out : List ℕ) (i v : ℕ) → i < length out → store out i v ≡ some (set out i v)
unfolding store
store-set out i v h = ground arith

-- A round at an index inside both arrays.
parse_loop-next :
    (raw out : List ℕ) (left i : ℕ)
    → i * 2 + 1 < length raw
    → i < length out
    → parse_loop raw (suc left) i out
      ≡ parse_loop raw left
          (i + 1)
          (set out i (u16 (bit_or (get_or raw (i * 2) 0 << 8) (get_or raw (i * 2 + 1) 0))))
unfolding parse_loop
parse_loop-next raw out left i h k = rw (
  get_elem?-eq-get_or raw (i * 2) 0 (omega arith),
  get_elem?-eq-get_or raw (i * 2 + 1) 0 h,
  store-set out i _ k,
)

parse_loop-total :
    (left i : ℕ) (raw out : List ℕ)
    → (i + left) * 2 ≡ length raw
    → i + left ≡ length out
    → (words : List ℕ) × (parse_loop raw left i out ≡ some words) × (length words ≡ length out)
unfolding parse_loop
parse_loop-total zero i raw out h k = (out, refl, refl)
parse_loop-total (suc left) i raw out h k =
    let v = u16 (bit_or (get_or raw (i * 2) 0 << 8) (get_or raw (i * 2 + 1) 0)) in
    let (words, e, same) =
      parse_loop-total left (i + 1) raw (set out i v) (omega arith)
        (rw (length-set out i v) (omega arith)) in
    (
      words,
      parse_loop-next raw out left i (omega arith) (omega arith) ∙ e,
      same ∙ length-set out i v,
    )

pub parse_registers-total :
    (raw out : List ℕ) (len : ℕ)
    → length raw ≡ len * 2
    → length out ≡ len
    → (words : List ℕ) × (parse_registers raw out len ≡ some words) × (length words ≡ len)
unfolding parse_registers
parse_registers-total raw out len h k =
    let (words, e, same) = parse_loop-total len 0 raw out (omega arith) (omega arith) in
    (words, e, same ∙ k)
