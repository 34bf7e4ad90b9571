-- ===== src/Driver/Registers.antt =====
-- parse_registers of heatpump.c: big-endian words from a payload.
pub mod Laws
pub mod Kept
pub mod Total
use haier_controller.Prelude.{
  ℕ, zero, suc, ◌+◌, ◌*◌, List, Option, some, get_elem?, bit_or, u16, ◌<<◌,
}
use haier_controller.Cmd.Types.{◌>>=◌}
use haier_controller.Cmd.Set.{store}

-- The loop at index `i`, with `left` rounds to go.
pub parse_loop : List ℕ → ℕ → ℕ → List ℕ → Option (List ℕ)
parse_loop raw zero i out = some out
parse_loop raw (suc left) i out = do
  hi ← get_elem? raw (i * 2)
  lo ← get_elem? raw (i * 2 + 1)
  out' ← store out i (u16 (bit_or (hi << 8) lo))
  parse_loop raw left (i + 1) out'

pub parse_registers : List ℕ → List ℕ → ℕ → Option (List ℕ)
parse_registers raw out len = parse_loop raw len 0 out
