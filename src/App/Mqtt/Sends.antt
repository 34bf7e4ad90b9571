-- ===== src/App/Mqtt/Sends.antt =====
-- The way of a command, from the message to the registers for write_pump.
use haier_controller.Prelude.{
  ℕ, ℤ, pos, ◌≤◌, ◌<◌, ◌≡◌, false, List, ◌∷◌, ◌++◌, Option, some, length,
}
use haier_controller.Floats.{Floats, Rounds}
use haier_controller.Cmd.Types.{◌>>=◌}
use haier_controller.Cmd.R101.Frame.{Settings, IsSettings, words}
use haier_controller.Cmd.Set.Words.{command}
use haier_controller.Cmd.Set.States.{IsChange, requested, flag_of}
use haier_controller.Driver.State.{Regs}
use haier_controller.Driver.Api.{Plan, state_of_int, out_of_range}
use haier_controller.Driver.Api.Commands.{sends, set_pump_state-sends, set_pump_ch_temp-sends}
use haier_controller.App.Mqtt.{
  rx_size, Handler, cmd_ch, cmd_state, Call, Numbers, on_publish, handle,
}
use haier_controller.App.Mqtt.Laws.{Free, spelled, on_publish-spelled}

-- A message, from the event to the end of the handler, with the registers of the driver and the
-- array of the setter.
abbrev pub command_of :
    (F : Floats) → Numbers F → Regs → List ℕ → Option (Option Call) → Option Plan
command_of F n r regs found = found >>= λ called. called >>= λ c. handle F n r regs c

-- The text `name value` in the buffer, with anything behind it.
abbrev pub arrives : Call → ℕ → List ℕ → List ℕ
arrives c old rest = spelled c ++ old ∷ rest

abbrev pub call_of : Handler → List ℕ → Call
call_of h arg = record { handler = h; arg = arg }

module _ (F : Floats) (n : Numbers F) (s : Settings) (ok : IsSettings s) (r : Regs)
    (known : r.r101 ≡ words s) (regs : List ℕ) (six : length regs ≡ 6) (arg : List ℕ)
    (answer old : ℕ) (rest : List ℕ) (text : Free 0 arg) where
  -- For registers that hold the words of settings that fit, an array of six, and a message
  -- `state`, a space and a value without a NUL, which fits the buffer, was read without an error,
  -- and of which strtol makes a number below 7 whose request changes the state: from the event to
  -- the end of the handler, the words of the requested settings, under the flag of the request,
  -- are handed to write_pump for address 101, with success.
  pub state_message-sends :
      (v : ℕ)
      → length (spelled (call_of cmd_state arg)) < rx_size
      → n.strtol arg ≡ pos v
      → v < 7
      → IsChange (state_of_int (pos v)) s
      → command_of F n r regs (
          on_publish
            (length (spelled (call_of cmd_state arg)))
            (pos answer)
            (arrives (call_of cmd_state arg) old rest))
        ≡ sends 101 (
            words (command (flag_of (state_of_int (pos v))) 0 (requested (state_of_int (pos v)) s)))
  unfolding handle
  state_message-sends v fits number small change =
      rw (on_publish-spelled (call_of cmd_state arg) answer old rest text fits, number)
        (set_pump_state-sends s ok r known regs six v small change)

  module _ (L : Rounds F) (z : ℤ) (finite : F.trunc (n.strtof arg) ≡ some z)
      (accepted : out_of_range F (n.strtof arg) ≡ false) where
    -- For registers that hold the words of settings that fit, an array of six, and a message
    -- `ch`, a space and a value without a NUL, which fits the buffer, was read without an error,
    -- and of which strtof makes a finite number that the guard lets through: from the event to
    -- the end of the handler, the words of the same settings with the heating target replaced by
    -- the number in half degrees, from 12 to 100, under command flag 4, are handed to write_pump
    -- for address 101, with success.
    pub ch_message-sends :
        length (spelled (call_of cmd_ch arg)) < rx_size
        → (m : ℕ) × (F.trunc (F.mul (n.strtof arg) (F.literal 2 0)) ≡ some (pos m))
          × (12 ≤ m)
          × (m ≤ 100)
          × (command_of F n r regs (
                on_publish
                  (length (spelled (call_of cmd_ch arg)))
                  (pos answer)
                  (arrives (call_of cmd_ch arg) old rest))
              ≡ sends 101 (words (command 4 0 (record s { ch_temp = m }))))
    unfolding handle
    ch_message-sends fits =
        let (m, cut, low, high, sent) =
          set_pump_ch_temp-sends s ok r known regs six F L (n.strtof arg) z finite accepted in
        (
          m,
          cut,
          low,
          high,
          rw (on_publish-spelled (call_of cmd_ch arg) answer old rest text fits) sent,
        )
