-- ===== src/App/Status/Rounds.antt =====
-- From the line to the status packet.
use haier_controller.Prelude.{ℕ, ◌∷◌, [], pos, ◌≡◌, refl, Bool, List, some}
use haier_controller.Floats.{Floats}
use haier_controller.Cmd.Types.{HeatpumpMode, ◌>>=◌}
use haier_controller.Cmd.R101.Frame.{Settings, IsSettings, halves, mode_of, words as words101}
use haier_controller.Cmd.R141.Frame.{Frame, IsFrame, tenths, words as words141}
use haier_controller.Cmd.R201.Frame.{IsMode}
use haier_controller.Driver.State.{HeatpumpConfig, Regs, IsRegs}
use haier_controller.Driver.Uart.{Poll, Ticks}
use haier_controller.Driver.Sniffer.Rounds.{turns, Round, length_of, FitWords, turns-Round}
use haier_controller.App.Status.{mode_value, threeway_value, bool_value, Locals, get_status}
use haier_controller.App.Status.Laws.{get_status-words}

module _ (F : Floats) (s : Settings) (f : Frame) (v : ℕ) (m : HeatpumpMode) (r241 : List ℕ) where
  -- The registers that hold the settings, the frame and the mode.
  abbrev pub reported : Regs
  reported = record { r101 = words101 s; r141 = words141 f; r201 = v ∷ []; r241 = r241 }

  -- If the four blocks come on the line in order, each frame from the configured address and in
  -- time, after any number of bytes that are not the address, of frames that are no report of a
  -- block, and of frames that break off, with the words of settings and of a frame that fit their
  -- bits, a value by which the heat pump means a mode, and a last block of any words, all of 16
  -- bits and of the sizes of the arrays, then after as many turns of the sniffer, not held off,
  -- as there are of all these, whatever the registers of their sizes held before, get_status
  -- fills the status packet with the ambient temperature that it is handed and, in every other
  -- field, with what the heat pump reported.
  pub get_status-turns :
      (k : Ticks) (cfg : HeatpumpConfig) (pending : Bool) (old : Regs) (line rest : List Poll)
      (ambient : F.Float) (locals : Locals F)
      → IsSettings s
      → IsFrame f
      → IsMode v m
      → IsRegs old
      → IsRegs reported
      → FitWords reported
      → (w : Round k cfg.slave_addr reported line rest)
      → (turns k cfg pending (length_of w) old line >>= λ seen. get_status F seen.0 ambient locals)
        ≡ some (record {
          ambient_temp = ambient;
          ch_temp = tenths F (pos f.twi);
          dhw_temp = tenths F f.dhw_temp;
          ch_target_temp = halves F (pos s.ch_temp);
          dhw_target_temp = halves F s.dhw_target;
          opr_mode = mode_value m;
          valve_state = threeway_value f.valve;
          tank_state = bool_value s.has_tank;
          heater_state = mode_value (mode_of s.cooling s.heating);
          driver_state = bool_value s.is_on;
        })
  get_status-turns k cfg pending old line rest ambient locals s_ok f_ok is_mode ok new fit round =
      rw (turns-Round k cfg pending old reported line rest ok new fit round)
        (get_status-words F s f reported v m ambient locals s_ok f_ok refl refl refl is_mode)
