-- ===== src/App/Status/Laws.antt =====
-- get_status over registers that hold what the heat pump reported.
use haier_controller.Prelude.{ℕ, pos, ◌≡◌, [], ◌∷◌, some}
use haier_controller.Floats.{Floats}
use haier_controller.Cmd.Types.{HeatpumpMode}
use haier_controller.Cmd.R101.Frame.{Settings, IsSettings, mode_of, halves, words as words101}
use haier_controller.Cmd.R141.Frame.{Frame, IsFrame, tenths, words as words141}
use haier_controller.Cmd.R201.Frame.{IsMode, get_mode-word}
use haier_controller.Driver.State.{Regs}
use haier_controller.Driver.Api.Reads.{api-Answers, read_mode-word}
use haier_controller.App.Status.{mode_value, threeway_value, bool_value, Locals, get_status}

-- If the registers hold the words of settings and of a frame that fit their bits, and register
-- 201 holds a value by which it means a mode, then get_status fills the status packet with the
-- ambient temperature that it is handed and, in every other field, what the heat pump reported,
-- whatever the local variables held before.
pub get_status-words :
    (F : Floats) (s : Settings) (f : Frame) (r : Regs) (v : ℕ) (m : HeatpumpMode)
    (ambient : F.Float) (locals : Locals F)
    → IsSettings s
    → IsFrame f
    → r.r101 ≡ words101 s
    → r.r141 ≡ words141 f
    → r.r201 ≡ v ∷ []
    → IsMode v m
    → get_status F r ambient locals
      ≡ some (record {
        ambient_temp = ambient;
        ch_temp = tenths F (pos f.twi);
        dhw_temp = tenths F f.dhw_temp;
        ch_target_temp = halves F (pos s.ch_temp);
        dhw_target_temp = halves F s.dhw_target;
        opr_mode = mode_value m;
        valve_state = threeway_value f.valve;
        tank_state = bool_value s.has_tank;
        heater_state = mode_value (mode_of s.cooling s.heating);
        driver_state = bool_value s.is_on;
      })
unfolding get_status
get_status-words F s f r v m ambient locals s_ok f_ok e101 e141 e201 e =
    let a = api-Answers F s f r s_ok f_ok e101 e141 in
    rw (
      a.twi_two locals.info,
      a.status locals.stat,
      a.dhw_temp locals.temp,
      a.ch_temp locals.temp,
      a.dhw_target_temp locals.temp,
      read_mode-word r v m e201 (get_mode-word e),
      a.threeway,
    )
