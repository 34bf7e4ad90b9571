-- ===== src/Driver/Device.antt =====
-- The driver as its clients see it, by fw/inc/haierctrl/drivers/heatpump.h: a table of functions, and
-- a call for each of them. A reader takes the registers, and where it fills a local variable, what
-- that variable held; a setter takes the array that it has on its stack.
use haier_controller.Prelude.{ℕ, ℤ, List, Option}
use haier_controller.Floats.{Floats}
use haier_controller.Cmd.Types.{
  Code, Reply, HeatpumpState, HeatpumpMode, HeatpumpThreeway, HeatpumpStatus, TiToInfo,
}
use haier_controller.Driver.State.{Regs}
use haier_controller.Driver.Api.{Plan}
use haier_controller.Driver.Api

-- `struct heatpump_driver_api`
pub record DriverApi (F : Floats) : Type 0 where
  pub get_3way : Regs → Option HeatpumpThreeway
  pub read_ch_temp : Regs → F.Float → Option F.Float
  pub read_dhw_temp : Regs → F.Float → Option F.Float
  pub read_dhw_target_temp : Regs → F.Float → Option F.Float
  pub read_heater_state : Regs → Option HeatpumpState
  pub read_heatpump_mode : Regs → Option HeatpumpMode
  pub read_pump_state : Regs → Option HeatpumpState
  pub read_twi_two : Regs → TiToInfo F.Float → Option (Code × TiToInfo F.Float)
  pub read_status : Regs → Option HeatpumpStatus → Reply HeatpumpStatus
  pub set_ch_temp : Regs → F.Float → List ℕ → Option Plan
  pub set_dhw_temp : Regs → F.Float → List ℕ → Option Plan
  pub set_mode : ℤ → List ℕ → Option Plan
  pub set_state : Regs → ℤ → List ℕ → Option Plan

-- The table of heatpump.c.
abbrev pub heatpump_api : (F : Floats) → DriverApi F
heatpump_api F = record {
  get_3way = Api.get_3way;
  read_ch_temp = Api.read_ch_temp F;
  read_dhw_temp = Api.read_dhw_temp F;
  read_dhw_target_temp = Api.read_dhw_target_temp F;
  read_heater_state = Api.read_heater_state;
  read_heatpump_mode = Api.read_mode;
  read_pump_state = Api.read_pump_state;
  read_twi_two = Api.read_twi_two F;
  read_status = Api.read_pump_status;
  set_ch_temp = Api.set_pump_ch_temp F;
  set_dhw_temp = Api.set_pump_dhw_temp F;
  set_mode = Api.set_pump_mode;
  set_state = Api.set_pump_state;
}

module _ {F : Floats} (api : DriverApi F) where
  abbrev pub heatpump_get_3way : Regs → Option HeatpumpThreeway
  heatpump_get_3way r = api.get_3way r

  abbrev pub heatpump_read_ch_temp : Regs → F.Float → Option F.Float
  heatpump_read_ch_temp r temp = api.read_ch_temp r temp

  abbrev pub heatpump_read_dhw_temp : Regs → F.Float → Option F.Float
  heatpump_read_dhw_temp r temp = api.read_dhw_temp r temp

  abbrev pub heatpump_read_dhw_target_temp : Regs → F.Float → Option F.Float
  heatpump_read_dhw_target_temp r temp = api.read_dhw_target_temp r temp

  abbrev pub heatpump_read_heater_state : Regs → Option HeatpumpState
  heatpump_read_heater_state r = api.read_heater_state r

  abbrev pub heatpump_read_mode : Regs → Option HeatpumpMode
  heatpump_read_mode r = api.read_heatpump_mode r

  abbrev pub heatpump_read_pump_state : Regs → Option HeatpumpState
  heatpump_read_pump_state r = api.read_pump_state r

  abbrev pub heatpump_read_twi_two : Regs → TiToInfo F.Float → Option (Code × TiToInfo F.Float)
  heatpump_read_twi_two r info = api.read_twi_two r info

  abbrev pub heatpump_read_status : Regs → Option HeatpumpStatus → Reply HeatpumpStatus
  heatpump_read_status r stat = api.read_status r stat

  abbrev pub heatpump_set_ch_temp : Regs → F.Float → List ℕ → Option Plan
  heatpump_set_ch_temp r temp regs = api.set_ch_temp r temp regs

  abbrev pub heatpump_set_dhw_temp : Regs → F.Float → List ℕ → Option Plan
  heatpump_set_dhw_temp r temp regs = api.set_dhw_temp r temp regs

  abbrev pub heatpump_set_mode : ℤ → List ℕ → Option Plan
  heatpump_set_mode mode regs = api.set_mode mode regs

  abbrev pub heatpump_set_state : Regs → ℤ → List ℕ → Option Plan
  heatpump_set_state r state regs = api.set_state r state regs
