-- ===== src/Cmd/R141.antt =====
-- The getters of haier_cmd.c over the block of sixteen registers from 141 on.
pub mod Frame
pub mod Laws
pub mod Safe
use haier_controller.Prelude.{
  ℕ, ℤ, pos, List, Option, some, Bool, true, ◌||◌, if◌then◌else◌, ◌!=◌, is_none, get_elem?, i16,
}
use haier_controller.Prelude.Bits.{has_bit}
use haier_controller.Floats.{Floats}
use haier_controller.Cmd.Types.{
  Reply, reply, refused, ◌>>=◌, HeatpumpState, HeatpumpThreeway, TiToInfo,
}
use haier_controller.Cmd.Bytes.{high_byte, low_byte, low12, high12, signed12}

unfoldable pub get_3way_state : List ℕ → ℕ → Option HeatpumpThreeway
get_3way_state regs count = if count != 16 then some HeatpumpThreeway.invalid else do
  r ← get_elem? regs 0
  some (
      if has_bit r 9
      then HeatpumpThreeway.dhw
      else (if has_bit r 10
          then HeatpumpThreeway.ch
          else (if has_bit r 11
              then HeatpumpThreeway.antifreeze
              else (if has_bit r 13 then HeatpumpThreeway.defrost else HeatpumpThreeway.off))))

pub get_error : List ℕ → ℕ → Option ℕ → Reply ℕ
get_error regs count err =
    if count != 16 || is_none err then refused err else do r ← get_elem? regs 0; reply (low_byte r)

pub get_heater_state : List ℕ → ℕ → Option HeatpumpState
get_heater_state regs count =
    if count != 16
    then some HeatpumpState.invalid
    else do r ← get_elem? regs 3; some (if has_bit r 8 then HeatpumpState.on else HeatpumpState.off)

pub get_pump_state : List ℕ → ℕ → Option HeatpumpState
get_pump_state regs count =
    if count != 16
    then some HeatpumpState.invalid
    else do r ← get_elem? regs 3; some (if has_bit r 9 then HeatpumpState.on else HeatpumpState.off)

module _ (F : Floats) where
  open F use {Float, of_int, literal, div}

  pub get_dhw_temp : List ℕ → ℕ → Option Float → Reply Float
  get_dhw_temp regs count temp =
      if count != 16 || is_none temp
      then refused temp
      else do r ← get_elem? regs 13; reply (div (of_int (i16 r)) (literal 10 0))

  pub get_thi_tho_info : List ℕ → ℕ → Option (TiToInfo Float) → Reply (TiToInfo Float)
  get_thi_tho_info regs count thitho = if count != 16 || is_none thitho then refused thitho else do
    r7 ← get_elem? regs 7
    r8 ← get_elem? regs 8
    reply (record {
      ti = div (of_int (signed12 (low12 (high_byte r7) (low_byte r7)))) (literal 10 0);
      to = div (of_int (signed12 (high12 (high_byte r7) (high_byte r8)))) (literal 10 0);
    })

  -- Here the twelve bits are read as an unsigned number.
  pub get_twi_two_info : List ℕ → ℕ → Option (TiToInfo Float) → Reply (TiToInfo Float)
  get_twi_two_info regs count twitwo = if count != 16 || is_none twitwo then refused twitwo else do
    r5 ← get_elem? regs 5
    r6 ← get_elem? regs 6
    reply (record {
      ti = div (of_int (pos (low12 (low_byte r5) (high_byte r6)))) (literal 10 0);
      to = div (of_int (pos (high12 (low_byte r5) (low_byte r6)))) (literal 10 0);
    })
