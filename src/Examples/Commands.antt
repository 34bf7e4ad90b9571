-- ===== src/Examples/Commands.antt =====
-- Commands for the heat pump at work.
use haier_controller.Prelude.{
  ℕ, pos, negsuc, ◌≡◌, refl, ◌≤◌, true, false, List, [], ◌∷◌, some, none, arith,
}
use haier_controller.Floats.Exact.{exact, exact-Rounds, half}
use haier_controller.Cmd.Types.{Code, reply, HeatpumpState}
use haier_controller.Cmd.R101.Frame.{words}
use haier_controller.Cmd.Set.{
  store, store6, set_ch_temp, set_heater, set_pump, set_state, set_dhw_compensation,
  set_temp_compensation,
}
use haier_controller.Cmd.Set.Words.{command}
use haier_controller.Cmd.Set.Temperatures.{compensations-words}
use haier_controller.Cmd.Set.States.{Sends, set_state_again}
use haier_controller.Cmd.Set.Switches.{raised, switches-words}
use haier_controller.Driver.Api.{
  Plan, out_of_range, set_pump_state, state_of_int, set_pump_ch_temp, set_pump_dhw_temp,
}
use haier_controller.Driver.Api.Commands.{
  sends, is_call, set_pump_state-total, set_pump_state-sends, set_pump_ch_temp-sends,
  set_pump_dhw_temp-sends, set_pump_ch_temp-nan,
}
use haier_controller.Examples.Data.{
  settings, settings-IsSettings, settings_off, settings_off-IsSettings, blank, regs, regs_off,
  regs-IsRegs,
}

-- 20.5 degrees pass the guard, 60 do not.
passes : out_of_range exact (half 41) ≡ false
unfolding out_of_range
passes = refl

too_hot_test : out_of_range exact (half 120) ≡ true
unfolding out_of_range
too_hot_test = refl

-- The registers that a request for 20.5 degrees sends.
ch_temp_test :
    set_pump_ch_temp exact regs (half 41) blank
    ≡ sends 101 (0x04ad ∷ 0x291a ∷ 5 ∷ 5 ∷ 5 ∷ 0x6022 ∷ [])
unfolding set_pump_ch_temp out_of_range set_ch_temp store6 store
ch_temp_test = refl

set_pump_ch_temp-sends_example :
    (n : ℕ) × (exact.trunc (exact.mul (half 41) (exact.literal 2 0)) ≡ some (pos n))
    × (12 ≤ n)
    × (n ≤ 100)
    × (set_pump_ch_temp exact regs (half 41) blank
        ≡ sends 101 (words (command 4 0 (record settings { ch_temp = n }))))
set_pump_ch_temp-sends_example =
    set_pump_ch_temp-sends settings settings-IsSettings regs refl blank refl exact exact-Rounds
      (half 41) (pos 20) refl passes

set_pump_dhw_temp-sends_example :
    (n : ℕ) × (exact.trunc (exact.mul (half 41) (exact.literal 2 0)) ≡ some (pos n))
    × (12 ≤ n)
    × (n ≤ 100)
    × (set_pump_dhw_temp exact regs (half 41) blank
        ≡ sends 101 (words (command 0 2 (record settings { dhw_target = pos n }))))
set_pump_dhw_temp-sends_example =
    set_pump_dhw_temp-sends settings settings-IsSettings regs refl blank refl exact exact-Rounds
      (half 41) (pos 20) refl passes

-- `none` is not a number.
set_pump_ch_temp-nan_example : set_pump_ch_temp exact regs none blank ≡ none
set_pump_ch_temp-nan_example = set_pump_ch_temp-nan exact regs none blank regs-IsRegs refl refl refl

set_pump_state-sends_example :
    set_pump_state regs_off (pos 0) blank ≡ sends 101 (words (command 1 0 settings))
unfolding state_of_int
set_pump_state-sends_example =
    set_pump_state-sends settings_off settings_off-IsSettings regs_off refl blank refl 0
      (omega arith) refl

set_pump_state-total_example :
    (p : Plan) × (set_pump_state regs (negsuc 0) blank ≡ some p)
    × (is_call p.write ≡ false)
    × (p.code ≡ Code.einval)
set_pump_state-total_example = set_pump_state-total regs (negsuc 0) blank regs-IsRegs refl

-- Asked to switch on while it is on, the heat pump is told to switch off.
set_state_again_example :
    (sent : List ℕ) × (set_state (some (words settings)) 6 HeatpumpState.on (some blank)
      ≡ reply sent)
    × Sends sent false
set_state_again_example =
    set_state_again settings settings-IsSettings blank refl HeatpumpState.on refl

-- A compensation of two degrees.
compensations-words_example :
    (set_temp_compensation exact (some (words settings)) 6 (half 4) (some blank)
      ≡ reply (words (command 8 0 (record settings { temp_comp = pos 4 }))))
    × (set_dhw_compensation exact (some (words settings)) 6 (half 4) (some blank)
        ≡ reply (words (command 8 0 (record settings { dhw_comp = pos 4 }))))
compensations-words_example =
    compensations-words exact settings settings-IsSettings (half 4) blank refl (pos 4) refl
      (omega arith)

switches-words_example :
    (set_heater (some (words settings)) 6 false (some blank)
      ≡ reply (words (command 0x10 0 settings)))
    × (set_pump (some (words settings)) 6 true (some blank)
        ≡ reply (words (command 0x20 0 (raised 4 settings))))
switches-words_example = switches-words settings settings-IsSettings blank refl false true
