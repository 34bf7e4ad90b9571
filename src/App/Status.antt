-- ===== src/App/Status.antt =====
-- get_status of fw/src/main.c, and read_temp of fw/src/temp.c.
pub mod Laws
pub mod Rounds
pub mod Total
use haier_controller.Prelude.{ℕ, ℤ, pos, Bool, true, false, if◌then◌else◌, Option, some}
use haier_controller.Prelude.Int.{ltb_ℤ}
use haier_controller.Floats.{Floats}
use haier_controller.Cmd.Types.{◌>>=◌, HeatpumpMode, HeatpumpThreeway, HeatpumpStatus, TiToInfo}
use haier_controller.Driver.State.{Regs}
use haier_controller.Driver.Api.{
  variable, get_3way, read_mode, read_pump_status, read_ch_temp, read_dhw_temp,
  read_dhw_target_temp, read_twi_two,
}

-- The values of the enumerators, and of a `bool`.
unfoldable pub mode_value : HeatpumpMode → ℕ
mode_value HeatpumpMode.eco = 0
mode_value HeatpumpMode.quiet = 1
mode_value HeatpumpMode.turbo = 2
mode_value HeatpumpMode.invalid = 3
mode_value HeatpumpMode.mode_none = 4
mode_value HeatpumpMode.cool = 5
mode_value HeatpumpMode.heat = 6

unfoldable pub threeway_value : HeatpumpThreeway → ℕ
threeway_value HeatpumpThreeway.off = 0
threeway_value HeatpumpThreeway.dhw = 1
threeway_value HeatpumpThreeway.ch = 2
threeway_value HeatpumpThreeway.antifreeze = 3
threeway_value HeatpumpThreeway.defrost = 4
threeway_value HeatpumpThreeway.invalid = 5

abbrev pub bool_value : Bool → ℕ
bool_value true = 1
bool_value false = 0

-- read_temp, from the answers of sensor_sample_fetch, and the value that sensor_channel_get left in
-- the structure, as a double. An error of the second call is only logged.
pub read_temp : {Double : Type 0} → Double → ℤ → Double → Double
read_temp zero_value fetched value = if ltb_ℤ fetched (pos 0) then zero_value else value

pub record StatusPacket (Float : Type 0) : Type 0 where
  pub ambient_temp : Float
  pub ch_temp : Float
  pub dhw_temp : Float
  pub ch_target_temp : Float
  pub dhw_target_temp : Float
  pub opr_mode : ℕ
  pub valve_state : ℕ
  pub tank_state : ℕ
  pub heater_state : ℕ
  pub driver_state : ℕ

module _ (F : Floats) where
  open F use {Float}

  -- What the local variables of the calls hold before: nothing that the code has written.
  pub record Locals : Type 0 where
    pub info : TiToInfo Float
    pub stat : HeatpumpStatus
    pub temp : Float

  -- `ambient` is what read_temp returned, as a float. The error codes of the readers are dropped.
  pub get_status : Regs → Float → Locals → Option (StatusPacket Float)
  get_status r ambient locals = do
    (twi_err, info) ← read_twi_two F r locals.info
    stat ← variable (read_pump_status r (some locals.stat))
    dhw_temp ← read_dhw_temp F r locals.temp
    ch_target ← read_ch_temp F r locals.temp
    dhw_target ← read_dhw_target_temp F r locals.temp
    mode ← read_mode r
    valve ← get_3way r
    some (record {
      ambient_temp = ambient;
      ch_temp = info.ti;
      dhw_temp = dhw_temp;
      ch_target_temp = ch_target;
      dhw_target_temp = dhw_target;
      opr_mode = mode_value mode;
      valve_state = threeway_value valve;
      tank_state = bool_value stat.has_tank;
      heater_state = mode_value stat.heat_mode;
      driver_state = bool_value stat.is_on;
    })
