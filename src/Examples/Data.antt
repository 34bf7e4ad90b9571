-- ===== src/Examples/Data.antt =====
-- A heat pump at work, as it reports itself.
use haier_controller.Prelude.{ℕ, pos, negsuc, true, false, List, [], ◌∷◌, arith, refl}
use haier_controller.Cmd.Types.{HeatpumpThreeway}
use haier_controller.Cmd.R101.Frame as F101
use haier_controller.Cmd.R141.Frame as F141
use haier_controller.Cmd.R241.Frame as F241
use haier_controller.Driver.State.{HeatpumpConfig, Regs, IsRegs}
use haier_controller.Driver.Uart.{Ticks}

-- On, heating, with a tank; 35 degrees for the heating and 48 for the tank.
abbrev pub settings : F101.Settings
settings = record {
  is_on = true;
  cooling = false;
  heating = true;
  has_tank = true;
  ch_temp = 70;
  temp_comp = negsuc 3;
  dhw_target = pos 96;
  dhw_comp = pos 4;
  spare = λ i. 5;
}

-- The same heat pump, switched off.
abbrev pub settings_off : F101.Settings
settings_off = record settings { is_on = false }

pub settings-IsSettings : F101.IsSettings settings
settings-IsSettings = record {
  ch_temp = omega arith;
  temp_comp = omega arith;
  dhw_target = omega arith;
  dhw_comp = omega arith;
  middle = omega arith;
}

pub settings_off-IsSettings : F101.IsSettings settings_off
settings_off-IsSettings = record {
  ch_temp = omega arith;
  temp_comp = omega arith;
  dhw_target = omega arith;
  dhw_comp = omega arith;
  middle = omega arith;
}

-- The valve feeds the heating; the water comes back cooler than it leaves.
abbrev pub frame141 : F141.Frame
frame141 = record {
  valve = HeatpumpThreeway.ch;
  error = 0;
  heater = false;
  pump = true;
  twi = 301;
  two = 352;
  thi = negsuc 14;
  tho = pos 27;
  dhw_temp = pos 455;
  spare = λ i. 1;
}

pub frame141-IsFrame : F141.IsFrame frame141
frame141-IsFrame = record {
  valve = tt;
  error = omega arith;
  twi = omega arith;
  two = omega arith;
  thi = omega arith;
  tho = omega arith;
  dhw_temp = omega arith;
  spare_bit = (omega arith, omega arith);
  spare_byte = (omega arith, omega arith);
}

-- A frosty day: outside air and evaporator are below zero.
abbrev pub frame241 : F241.Frame
frame241 = record {
  last_error = 17;
  fact = 48;
  fset = 50;
  fan0 = 120;
  fan1 = 118;
  eev = 200;
  pd_set = 90;
  pd_act = 88;
  ps_set = 31;
  ps_act = 30;
  tsat_pd_target = pos 415;
  tsat_pd_act = pos 402;
  tsat_ps_target = negsuc 39;
  tsat_ps_act = negsuc 51;
  td = pos 733;
  ts = negsuc 12;
  tao = negsuc 34;
  tdef = negsuc 79;
  comp_temp = 250;
  current = 23;
  voltage = 57;
  version = 31;
  err1 = 17;
  err2 = 4;
  err3 = 0;
  spare = λ i. 9;
}

pub frame241-IsFrame : F241.IsFrame frame241
frame241-IsFrame = record {
  last_error = omega arith;
  fact = omega arith;
  fset = omega arith;
  fan0 = omega arith;
  fan1 = omega arith;
  eev = omega arith;
  pd_set = omega arith;
  pd_act = omega arith;
  ps_set = omega arith;
  ps_act = omega arith;
  tsat_pd_target = omega arith;
  tsat_pd_act = omega arith;
  tsat_ps_target = omega arith;
  tsat_ps_act = omega arith;
  td = omega arith;
  ts = omega arith;
  tao = omega arith;
  tdef = omega arith;
  comp_temp = omega arith;
  current = omega arith;
  voltage = omega arith;
  version = omega arith;
  err1 = omega arith;
  err2 = omega arith;
  err3 = omega arith;
  spare = λ i. omega arith;
}

abbrev pub blank : List ℕ
blank = 0 ∷ 0 ∷ 0 ∷ 0 ∷ 0 ∷ 0 ∷ []

abbrev pub regs : Regs
regs = record {
  r101 = F101.words settings;
  r141 = F141.words frame141;
  r201 = 1 ∷ [];
  r241 = F241.words frame241;
}

abbrev pub regs_off : Regs
regs_off = record regs { r101 = F101.words settings_off }

pub regs-IsRegs : IsRegs regs
regs-IsRegs = record { six = refl; sixteen = refl; one = refl; twenty_two = refl }

-- A clock that ticks in milliseconds.
abbrev pub ticks : Ticks
ticks = record { msec = λ n. n; forever = 1000000 }

abbrev pub cfg : HeatpumpConfig
cfg = record { slave_addr = 17; baud_rate = 9600 }
