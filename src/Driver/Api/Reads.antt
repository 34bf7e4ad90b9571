-- ===== src/Driver/Api/Reads.antt =====
-- What the readers of the API return, once the sniffer has filled the registers.
use haier_controller.Prelude.{ℕ, pos, ◌≡◌, [], ◌∷◌, some}
use haier_controller.Floats.{Floats}
use haier_controller.Cmd.Types.{Code, reply, HeatpumpMode, HeatpumpStatus, TiToInfo}
use haier_controller.Cmd.R101.Frame.{Settings, IsSettings, mode_of, halves, words as words101}
use haier_controller.Cmd.R101.Laws.{r101-Reports}
use haier_controller.Cmd.R141.Frame.{Frame, IsFrame, on_off, tenths, words as words141}
use haier_controller.Cmd.R141.Laws.{r141-Reports}
use haier_controller.Cmd.R201.{get_mode}
use haier_controller.Driver.State.{Regs}
use haier_controller.Driver.Api.{
  get_3way, read_heater_state, read_mode, read_pump_state, read_pump_status, read_ch_temp,
  read_dhw_temp, read_dhw_target_temp, read_twi_two,
}

pub read_mode-word :
    (r : Regs) (v : ℕ) (m : HeatpumpMode)
    → r.r201 ≡ v ∷ []
    → get_mode (v ∷ []) 1 ≡ some m
    → read_mode r ≡ some m
unfolding read_mode
read_mode-word r v m e known = rw (e, known)

module _ (F : Floats) where
  open F use {Float}

  -- The answers of the readers for the settings `s` and the frame `f`. What the local variables held
  -- before (`temp`, `info`, `stat`) plays no part.
  pub record Answers (s : Settings) (f : Frame) (r : Regs) : Type 0 where
    pub threeway : get_3way r ≡ some f.valve
    pub ch_temp : (temp : Float) → read_ch_temp F r temp ≡ some (halves F (pos s.ch_temp))
    pub dhw_temp : (temp : Float) → read_dhw_temp F r temp ≡ some (tenths F f.dhw_temp)
    pub dhw_target_temp :
        (temp : Float) → read_dhw_target_temp F r temp ≡ some (halves F s.dhw_target)
    pub heater_state : read_heater_state r ≡ some (on_off f.heater)
    pub pump_state : read_pump_state r ≡ some (on_off f.pump)
    pub twi_two :
        (info : TiToInfo Float)
        → read_twi_two F r info
          ≡ some (Code.success, record { ti = tenths F (pos f.twi); to = tenths F (pos f.two) })
    pub status :
        (stat : HeatpumpStatus)
        → read_pump_status r (some stat)
          ≡ reply (record {
            is_on = s.is_on;
            has_tank = s.has_tank;
            heat_mode = mode_of s.cooling s.heating;
          })

  -- If the registers hold the words of settings and of a frame that fit their bits, the eight
  -- readers of the driver's interface over them return what the heat pump reported, whatever
  -- their local variables held before.
  pub api-Answers :
      (s : Settings) (f : Frame) (r : Regs)
      → IsSettings s
      → IsFrame f
      → r.r101 ≡ words101 s
      → r.r141 ≡ words141 f
      → Answers s f r
  unfolding get_3way read_ch_temp read_dhw_temp read_dhw_target_temp read_heater_state
      read_pump_state read_twi_two read_pump_status
  api-Answers s f r s_ok f_ok e101 e141 =
      let a = r101-Reports F s s_ok in
      let b = r141-Reports F f f_ok in
      record {
        threeway = rw e141 b.threeway;
        ch_temp = λ temp. rw (e101, a.ch_temp temp);
        dhw_temp = λ temp. rw (e141, b.dhw_temp temp);
        dhw_target_temp = λ temp. rw (e101, a.dhw_target_temp temp);
        heater_state = rw e141 b.heater_state;
        pump_state = rw e141 b.pump_state;
        twi_two = λ info. rw (e141, b.twi_two_info info);
        status = λ stat. rw e101 (a.state stat);
      }
