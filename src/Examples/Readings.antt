-- ===== src/Examples/Readings.antt =====
-- What the getters, the API and the status packet say of the heat pump at work.
use haier_controller.Prelude.{arith, ◌≡◌, refl, true, false, [], ◌∷◌, some, none}
use haier_controller.Floats.Exact.{exact}
use haier_controller.Cmd.Types.{reply, HeatpumpMode, HeatpumpStatus, HeatpumpThreeway}
use haier_controller.Cmd.R101.Frame as F101
use haier_controller.Cmd.R101.Any.{settings_of, settings_of-Reports}
use haier_controller.Cmd.R101.Safe as Safe101
use haier_controller.Cmd.Safe.{getters-Answered}
use haier_controller.Cmd.R101.{get_state, heat_mode_of}
use haier_controller.Prelude.Bits.{has_bit}
use haier_controller.Cmd.R141.Frame as F141
use haier_controller.Cmd.R141.Laws.{r141-Reports}
use haier_controller.Cmd.R141.Safe as Safe141
use haier_controller.Cmd.R141.{get_3way_state}
use haier_controller.Cmd.R201.{get_mode}
use haier_controller.Cmd.R241.Frame as F241
use haier_controller.Cmd.R241.Laws.{r241-Reports}
use haier_controller.Cmd.R241.Safe as Safe241
use haier_controller.Cmd.R241.{tdef_raw}
use haier_controller.App.Status.{Locals}
use haier_controller.Examples.Data.{
  settings, frame141, frame141-IsFrame, frame241, frame241-IsFrame,
}

-- The heat pump is on, has a tank, and heats.
state_test :
    (old : HeatpumpStatus)
    → get_state (F101.words settings) 6 (some old)
      ≡ reply (record { is_on = true; has_tank = true; heat_mode = HeatpumpMode.heat })
unfolding get_state heat_mode_of has_bit
state_test old = refl

threeway_test : get_3way_state (F141.words frame141) 16 ≡ some HeatpumpThreeway.ch
unfolding get_3way_state has_bit
threeway_test = refl

-- -8.0 degrees in the defroster, as twelve bits.
tdef_test : tdef_raw 0xffdd 0xb009 ≡ 0xfb0
unfolding tdef_raw
tdef_test = refl

mode_test : get_mode (1 ∷ []) 1 ≡ some HeatpumpMode.quiet
unfolding get_mode
mode_test = refl

r241-Reports_example : F241.Reports exact frame241 (F241.words frame241)
r241-Reports_example = r241-Reports exact frame241 frame241-IsFrame

-- A status that names both cooling and heating, and compensations of -1 and -0.5.
settings_of-Reports_example :
    F101.IsSettings (settings_of 0x0587 0x461C 7 8 9 0xD81D)
    × (F101.words (settings_of 0x0587 0x461C 7 8 9 0xD81D)
        ≡ 0x0587 ∷ 0x461C ∷ 7 ∷ 8 ∷ 9 ∷ 0xD81D ∷ [])
    × F101.Reports exact
        (settings_of 0x0587 0x461C 7 8 9 0xD81D)
        (0x0587 ∷ 0x461C ∷ 7 ∷ 8 ∷ 9 ∷ 0xD81D ∷ [])
settings_of-Reports_example =
    settings_of-Reports exact 0x0587 0x461C 7 8 9 0xD81D (omega arith) (omega arith)

r141-Reports_example : F141.Reports exact frame141 (F141.words frame141)
r141-Reports_example = r141-Reports exact frame141 frame141-IsFrame

-- Variables that hold nothing of use.
abbrev pub locals : Locals exact
locals = record {
  info = record { ti = none; to = none };
  stat = record { is_on = false; has_tank = false; heat_mode = HeatpumpMode.invalid };
  temp = none;
}

getters-Answered_example :
    Safe101.Answered exact (F101.words settings)
    × Safe141.Answered exact (F141.words frame141)
    × Safe241.Answered exact (F241.words frame241)
getters-Answered_example =
    getters-Answered exact (F101.words settings) (F141.words frame141) (F241.words frame241) refl
      refl refl
