-- ===== src/Cmd/R201.antt =====
-- The getter of haier_cmd.c over the single register 201.
pub mod Frame
use haier_controller.Prelude.{ℕ, List, Option, some, if◌then◌else◌, ◌!=◌, ◌==◌, get_elem?}
use haier_controller.Cmd.Types.{◌>>=◌, HeatpumpMode}

unfoldable pub get_mode : List ℕ → ℕ → Option HeatpumpMode
get_mode regs count = if count != 1 then some HeatpumpMode.invalid else do
  r ← get_elem? regs 0
  some (
      if r == 0
      then HeatpumpMode.eco
      else (if r == 1
          then HeatpumpMode.quiet
          else (if r == 2 then HeatpumpMode.turbo else HeatpumpMode.invalid)))
