-- ===== src/App/Shell/Shows.antt =====
-- What `hp get` prints, once the sniffer has filled the registers.
use haier_controller.Prelude.{ℕ, pos, ◌≡◌, refl, [], ◌∷◌}
use haier_controller.Floats.{Floats}
use haier_controller.Cmd.Types.{HeatpumpMode}
use haier_controller.Cmd.R101.Frame.{Settings, IsSettings, halves, mode_of, words as words101}
use haier_controller.Cmd.R141.Frame.{Frame, IsFrame, tenths, words as words141}
use haier_controller.Cmd.R201.Frame.{IsMode, get_mode-word}
use haier_controller.Driver.State.{Regs}
use haier_controller.Driver.Device.{heatpump_api}
use haier_controller.Driver.Api.Reads.{read_mode-word, api-Answers}
use haier_controller.App.Status.{mode_value, threeway_value, bool_value, Locals}
use haier_controller.App.Shell.{
  GetCommand, ch, dhw, mode, tank, heat, threeway, ch_target, dhw_target, Line, val_float, val_int,
  shown, hp_get,
}

module _ (F : Floats) (s : Settings) (f : Frame) (m : HeatpumpMode) where
  -- The quantity that each command asks for.
  abbrev pub asked : GetCommand → Line F.Float
  asked ch = val_float (tenths F (pos f.twi))
  asked dhw = val_float (tenths F f.dhw_temp)
  asked mode = val_int (mode_value m)
  asked tank = val_int (bool_value s.has_tank)
  asked heat = val_int (mode_value (mode_of s.cooling s.heating))
  asked threeway = val_int (threeway_value f.valve)
  asked ch_target = val_float (halves F (pos s.ch_temp))
  asked dhw_target = val_float (halves F s.dhw_target)

  -- If the registers hold the words of settings and of a frame that fit their bits, and register
  -- 201 holds a value by which it means a mode, then each of the eight commands of `hp get` returns
  -- 0 and prints the quantity that the heat pump reported.
  pub hp_get-asked :
      (r : Regs) (v : ℕ) (locals : Locals F) (c : GetCommand)
      → IsSettings s
      → IsFrame f
      → r.r101 ≡ words101 s
      → r.r141 ≡ words141 f
      → r.r201 ≡ v ∷ []
      → IsMode v m
      → hp_get (heatpump_api F) r locals c ≡ shown (asked c)
  unfolding hp_get
  hp_get-asked r v locals c s_ok f_ok e101 e141 e201 e = by_command c
    where
      by_command : (d : GetCommand) → hp_get (heatpump_api F) r locals d ≡ shown (asked d)
      by_command ch = rw ((api-Answers F s f r s_ok f_ok e101 e141).twi_two locals.info) refl
      by_command dhw = rw ((api-Answers F s f r s_ok f_ok e101 e141).dhw_temp locals.temp) refl
      by_command mode = rw (read_mode-word r v m e201 (get_mode-word e)) refl
      by_command tank = rw ((api-Answers F s f r s_ok f_ok e101 e141).status locals.stat) refl
      by_command heat = rw ((api-Answers F s f r s_ok f_ok e101 e141).status locals.stat) refl
      by_command threeway = rw ((api-Answers F s f r s_ok f_ok e101 e141).threeway) refl
      by_command ch_target = rw ((api-Answers F s f r s_ok f_ok e101 e141).ch_temp locals.temp) refl
      by_command dhw_target =
          rw ((api-Answers F s f r s_ok f_ok e101 e141).dhw_target_temp locals.temp) refl
