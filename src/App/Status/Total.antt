-- ===== src/App/Status/Total.antt =====
-- get_status over any registers.
use haier_controller.Prelude.{◌<◌, ◌≡◌, refl, Bool, true, false, some, arith}
use haier_controller.Floats.{Floats}
use haier_controller.Cmd.Types.{HeatpumpMode, HeatpumpThreeway}
use haier_controller.Driver.State.{Regs, IsRegs}
use haier_controller.Driver.Api.Total.{api-AllAnswer}
use haier_controller.App.Status.{
  mode_value, threeway_value, bool_value, StatusPacket, Locals, get_status,
}

pub mode_value-lt : (m : HeatpumpMode) → mode_value m < 7
unfolding mode_value
mode_value-lt HeatpumpMode.eco = omega arith
mode_value-lt _ = omega arith

pub threeway_value-lt : (v : HeatpumpThreeway) → threeway_value v < 6
unfolding threeway_value
threeway_value-lt HeatpumpThreeway.off = omega arith
threeway_value-lt _ = omega arith

pub bool_value-lt : (b : Bool) → bool_value b < 2
bool_value-lt true = omega arith
bool_value-lt false = omega arith

-- A packet whose numbers are values of enumerators and flags.
pub record IsStatus {Float : Type 0} (p : StatusPacket Float) : Type 0 where
  pub opr_mode : p.opr_mode < 7
  pub valve_state : p.valve_state < 6
  pub tank_state : p.tank_state < 2
  pub heater_state : p.heater_state < 7
  pub driver_state : p.driver_state < 2

pub get_status-total :
    (F : Floats) (r : Regs) (ambient : F.Float) (locals : Locals F)
    → IsRegs r
    → (p : StatusPacket F.Float) × (get_status F r ambient locals ≡ some p) × IsStatus p
unfolding get_status
get_status-total F r ambient locals ok =
    let a = api-AllAnswer F r ok in
    let (info, e1) = a.twi_two locals.info in
    let (stat, e2) = a.status locals.stat in
    let (dhw, e3) = a.dhw_temp locals.temp in
    let (ch, e4) = a.ch_temp locals.temp in
    let (target, e5) = a.dhw_target_temp locals.temp in
    let (mode, e6) = a.mode in
    let (valve, e7) = a.threeway in
    let p : StatusPacket F.Float = record {
      ambient_temp = ambient;
      ch_temp = info.ti;
      dhw_temp = dhw;
      ch_target_temp = ch;
      dhw_target_temp = target;
      opr_mode = mode_value mode;
      valve_state = threeway_value valve;
      tank_state = bool_value stat.has_tank;
      heater_state = mode_value stat.heat_mode;
      driver_state = bool_value stat.is_on;
    } in
    (
      p,
      rw (e1, e2, e3, e4, e5, e6, e7) refl,
      record {
        opr_mode = mode_value-lt mode;
        valve_state = threeway_value-lt valve;
        tank_state = bool_value-lt stat.has_tank;
        heater_state = mode_value-lt stat.heat_mode;
        driver_state = bool_value-lt stat.is_on;
      },
    )
