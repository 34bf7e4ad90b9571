-- ===== src/Cmd/R101.antt =====
-- The getters of haier_cmd.c over the block of six registers from 101 on.
pub mod Any
pub mod Frame
pub mod Laws
pub mod Safe
use haier_controller.Prelude.{
  ℕ, ℤ, pos, List, Option, some, Bool, true, ◌&&◌, ◌||◌, if◌then◌else◌, ◌!=◌, is_none, get_elem?,
  bit_and, i8, ◌>>◌,
}
use haier_controller.Prelude.Int.{sub_ℕ}
use haier_controller.Prelude.Bits.{has_bit}
use haier_controller.Floats.{Floats}
use haier_controller.Cmd.Types.{Reply, reply, refused, ◌>>=◌, HeatpumpStatus, HeatpumpMode}
use haier_controller.Cmd.Bytes.{high_byte}

-- The `if` chain over the bits for cooling and heating.
unfoldable pub heat_mode_of : Bool → Bool → HeatpumpMode
heat_mode_of is_cool is_heat =
    if is_cool && is_heat
    then HeatpumpMode.mode_none
    else (if is_cool
        then HeatpumpMode.cool
        else (if is_heat then HeatpumpMode.heat else HeatpumpMode.mode_none))

unfoldable pub get_state : List ℕ → ℕ → Option HeatpumpStatus → Reply HeatpumpStatus
get_state regs count stat = if count != 6 || is_none stat then refused stat else do
  val ← get_elem? regs 0
  reply (record {
    is_on = has_bit val 0;
    has_tank = has_bit val 7;
    heat_mode = heat_mode_of (has_bit val 1) (has_bit val 2);
  })

module _ (F : Floats) where
  open F use {Float, of_int, literal, div}

  pub get_ch_temp : List ℕ → ℕ → Option Float → Reply Float
  get_ch_temp regs count temp =
      if count != 6 || is_none temp
      then refused temp
      else do r ← get_elem? regs 1; reply (div (of_int (pos (high_byte r))) (literal 2 0))

  pub get_dhw_compensation : List ℕ → ℕ → Option Float → Reply Float
  get_dhw_compensation regs count comp =
      if count != 6 || is_none comp
      then refused comp
      else do r ← get_elem? regs 5; reply (div (of_int (sub_ℕ (bit_and r 0xff) 30)) (literal 2 0))

  pub get_dhw_target_temp : List ℕ → ℕ → Option Float → Reply Float
  get_dhw_target_temp regs count temp =
      if count != 6 || is_none temp
      then refused temp
      else do r ← get_elem? regs 5; reply (div (of_int (i8 (r >> 8))) (literal 2 0))

  pub get_temp_compensation : List ℕ → ℕ → Option Float → Reply Float
  get_temp_compensation regs count comp =
      if count != 6 || is_none comp
      then refused comp
      else do r ← get_elem? regs 1; reply (div (of_int (sub_ℕ (bit_and r 0xff) 30)) (literal 2 0))
