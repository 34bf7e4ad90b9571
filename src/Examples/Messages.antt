-- ===== src/Examples/Messages.antt =====
-- Messages after a round of reports.
use haier_controller.Prelude.{ℕ, ◌≤◌, ◌≡◌, refl, Bool, true, false, List, [], ◌∷◌, some, pos, arith}
use haier_controller.Prelude.Bits.{has_bit}
use haier_controller.Floats.Exact.{exact, exact-Rounds}
use haier_controller.Cmd.R101.Frame as F101
use haier_controller.Cmd.R101.Any.{settings_of}
use haier_controller.Cmd.Set.Words.{command}
use haier_controller.Driver.Api.{state_of_int}
use haier_controller.App.Mqtt.{Handler, cmd_ch, cmd_dhw, cmd_state}
use haier_controller.App.Mqtt.Laws.{Free}
use haier_controller.App.Mqtt.Rounds.{
  Carries, state_message-Carries, ch_message-Carries, dhw_message-Carries,
}
use haier_controller.Examples.Data.{blank, regs, regs_off, regs-IsRegs, ticks, cfg}
use haier_controller.Examples.Rounds.{regs_off-IsRegs, regs-FitWords, checked, from101, round}
use haier_controller.Examples.Topics.{numbers, zeros, passes}

abbrev Carried : Handler → (arg : List ℕ) → ℕ → ℕ → Free 0 arg → Bool → ℕ → List ℕ → Type 0
Carried h arg answer blanks text taken addr ws =
    Carries 1453 17946 5 5 5 24610 regs.r141 regs.r201 regs.r241 ticks cfg true regs_off from101
      (checked []) regs_off-IsRegs regs-IsRegs regs-FitWords round exact numbers blank arg answer 7
      (zeros blanks) text h (pos 0) (pos 0) taken addr ws

text1 : Free 0 (b'1' ∷ [])
text1 = grind arith

text45 : Free 0 (b'4' ∷ b'5' ∷ [])
text45 = grind arith

-- `state 1` switches the heat pump off.
state_message-Carries_example :
    Carried cmd_state
      (b'1' ∷ [])
      7
      120
      text1
      true
      101
      (F101.words (command 1 0 (record (settings_of 1453 17946 5 5 5 24610) { is_on = false })))
unfolding state_of_int has_bit
state_message-Carries_example =
    state_message-Carries 1453 17946 5 5 5 24610 regs.r141 regs.r201 regs.r241 ticks cfg true
      regs_off from101 (checked []) regs_off-IsRegs regs-IsRegs regs-FitWords round exact numbers
      blank (b'1' ∷ []) 7 7 (zeros 120) text1 refl 1 (pos 0) (pos 0) true (omega arith) refl
      (omega arith) refl

-- `ch 45` asks for 45 degrees; the semaphore is not given in time.
ch_message-Carries_example :
    (m : ℕ) × (exact.trunc (exact.mul (exact.of_int (pos 45)) (exact.literal 2 0)) ≡ some (pos m))
    × (12 ≤ m)
    × (m ≤ 100)
    × Carried cmd_ch
        (b'4' ∷ b'5' ∷ [])
        5
        122
        text45
        false
        101
        (F101.words (command 4 0 (record (settings_of 1453 17946 5 5 5 24610) { ch_temp = m })))
ch_message-Carries_example =
    ch_message-Carries 1453 17946 5 5 5 24610 regs.r141 regs.r201 regs.r241 ticks cfg true regs_off
      from101 (checked []) regs_off-IsRegs regs-IsRegs regs-FitWords round exact numbers blank
      (b'4' ∷ b'5' ∷ []) 5 7 (zeros 122) text45 refl exact-Rounds (pos 45) (pos 0) (pos 0) false
      refl passes (omega arith)

-- `dhw 45` asks for the same temperature of the tank.
dhw_message-Carries_example :
    (m : ℕ) × (exact.trunc (exact.mul (exact.of_int (pos 45)) (exact.literal 2 0)) ≡ some (pos m))
    × (12 ≤ m)
    × (m ≤ 100)
    × Carried cmd_dhw (b'4' ∷ b'5' ∷ []) 6 121 text45 true 101 (
        F101.words
          (command 0 2 (record (settings_of 1453 17946 5 5 5 24610) { dhw_target = pos m })))
dhw_message-Carries_example =
    dhw_message-Carries 1453 17946 5 5 5 24610 regs.r141 regs.r201 regs.r241 ticks cfg true regs_off
      from101 (checked []) regs_off-IsRegs regs-IsRegs regs-FitWords round exact numbers blank
      (b'4' ∷ b'5' ∷ []) 6 7 (zeros 121) text45 refl exact-Rounds (pos 45) (pos 0) (pos 0) true refl
      passes (omega arith)
