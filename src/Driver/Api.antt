-- ===== src/Driver/Api.antt =====
-- The functions of the driver's API in heatpump.c, over the registers that the sniffer keeps. The
-- mutex makes each read of a block one step.
pub mod Reads
pub mod Commands
pub mod Total
use haier_controller.Prelude.{
  ℕ, suc, zero, ℤ, pos, negsuc, Bool, true, false, ◌||◌, ltb, if◌then◌else◌, List, Option, none,
  some,
}
use haier_controller.Prelude.Int.{ltb_ℤ}
use haier_controller.Floats.{Floats}
use haier_controller.Cmd.Types.{
  Code, Reply, ◌>>=◌, HeatpumpState, HeatpumpMode, HeatpumpThreeway, HeatpumpStatus, TiToInfo,
}
use haier_controller.Cmd.R101.{get_ch_temp, get_dhw_target_temp, get_state}
use haier_controller.Cmd.R141.{
  get_3way_state, get_dhw_temp, get_heater_state, get_pump_state, get_twi_two_info,
}
use haier_controller.Cmd.R201.{get_mode}
use haier_controller.Cmd.Set.{set_ch_temp, set_dhw_temp, set_mode, set_state}
use haier_controller.Driver.State.{Regs}

-- What a local variable holds after a getter was called with its address.
abbrev pub variable : {A : Type 0} → Reply A → Option A
variable answer = do (code, out) ← answer; out

pub get_3way : Regs → Option HeatpumpThreeway
get_3way r = get_3way_state r.r141 16

pub read_heater_state : Regs → Option HeatpumpState
read_heater_state r = get_heater_state r.r141 16

pub read_mode : Regs → Option HeatpumpMode
read_mode r = get_mode r.r201 1

pub read_pump_state : Regs → Option HeatpumpState
read_pump_state r = get_pump_state r.r141 16

pub read_pump_status : Regs → Option HeatpumpStatus → Reply HeatpumpStatus
read_pump_status r stat = get_state r.r101 6 stat

-- The enumerators that an `int` stands for. The `switch` of a setter treats every other value as it
-- treats `invalid`.
pub mode_of_int : ℤ → HeatpumpMode
mode_of_int (pos zero) = HeatpumpMode.eco
mode_of_int (pos (suc zero)) = HeatpumpMode.quiet
mode_of_int (pos (suc (suc zero))) = HeatpumpMode.turbo
mode_of_int _ = HeatpumpMode.invalid

unfoldable pub state_of_int : ℤ → HeatpumpState
state_of_int (pos zero) = HeatpumpState.on
state_of_int (pos (suc zero)) = HeatpumpState.off
state_of_int (pos (suc (suc zero))) = HeatpumpState.cooling
state_of_int (pos (suc (suc (suc zero)))) = HeatpumpState.heating
state_of_int (pos (suc (suc (suc (suc zero))))) = HeatpumpState.dhw
state_of_int (pos (suc (suc (suc (suc (suc zero)))))) = HeatpumpState.cool_dhw
state_of_int (pos (suc (suc (suc (suc (suc (suc zero))))))) = HeatpumpState.heat_dhw
state_of_int _ = HeatpumpState.invalid

-- A setter returns a code, and may call write_pump with an address and registers; what write_pump
-- answers is dropped.
pub record Plan : Type 0 where
  pub code : Code
  pub write : Option (ℕ × List ℕ)

abbrev rejected : Option Plan
rejected = some (record { code = Code.einval; write = none })

-- The call of write_pump with the array `regs`, after the setter has answered.
abbrev planned : ℕ → Reply (List ℕ) → Option Plan
planned addr answer = do
  (code, out) ← answer
  regs ← out
  some (record { code = code; write = some (addr, regs) })

-- `regs` is the array on the stack, which is not initialised.
pub set_pump_mode : ℤ → List ℕ → Option Plan
set_pump_mode mode regs =
    if ltb_ℤ mode (pos 0) || ltb_ℤ (pos 2) mode
    then rejected
    else planned 201 (set_mode (mode_of_int mode) (some regs))

pub set_pump_state : Regs → ℤ → List ℕ → Option Plan
set_pump_state r state regs =
    if ltb_ℤ state (pos 0) || ltb_ℤ (pos 6) state
    then rejected
    else planned 101 (set_state (some r.r101) 6 (state_of_int state) (some regs))

module _ (F : Floats) where
  open F use {Float, of_int, flt}

  -- `temp` is the local variable, which is not initialised.
  pub read_ch_temp : Regs → Float → Option Float
  read_ch_temp r temp = variable (get_ch_temp F r.r101 6 (some temp))

  pub read_dhw_temp : Regs → Float → Option Float
  read_dhw_temp r temp = variable (get_dhw_temp F r.r141 16 (some temp))

  pub read_dhw_target_temp : Regs → Float → Option Float
  read_dhw_target_temp r temp = variable (get_dhw_target_temp F r.r101 6 (some temp))

  -- The code, and what `*ti` and `*to` then hold.
  pub read_twi_two : Regs → TiToInfo Float → Option (Code × TiToInfo Float)
  read_twi_two r t_info = do
    (err, out) ← get_twi_two_info F r.r141 16 (some t_info)
    info ← out
    some (err, info)

  -- `temp < 6 || temp > 50`
  unfoldable pub out_of_range : Float → Bool
  out_of_range temp = flt temp (of_int (pos 6)) || flt (of_int (pos 50)) temp

  unfoldable pub set_pump_ch_temp : Regs → Float → List ℕ → Option Plan
  set_pump_ch_temp r temp regs =
      if out_of_range temp
      then rejected
      else planned 101 (set_ch_temp F (some r.r101) 6 temp (some regs))

  pub set_pump_dhw_temp : Regs → Float → List ℕ → Option Plan
  set_pump_dhw_temp r temp regs =
      if out_of_range temp
      then rejected
      else planned 101 (set_dhw_temp F (some r.r101) 6 temp (some regs))
