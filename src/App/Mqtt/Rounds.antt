-- ===== src/App/Mqtt/Rounds.antt =====
-- A command after a round of reports: from the line and the message to the registers that are sent.
use haier_controller.Prelude.{
  ℕ, ◌+◌, ℤ, pos, ◌≤◌, ◌<◌, ◌≡◌, refl, sym, Bool, false, List, [], ◌∷◌, Option, some, length,
}
use haier_controller.Floats.{Floats, Rounds}
use haier_controller.Cmd.Types.{◌>>=◌}
use haier_controller.Cmd.R101.Frame.{Settings, IsSettings, words}
use haier_controller.Cmd.R101.Any.{settings_of, settings_of-words, settings_of-IsSettings}
use haier_controller.Cmd.Set.Words.{command}
use haier_controller.Cmd.Set.States.{IsChange, requested, flag_of}
use haier_controller.Driver.State.{HeatpumpConfig, Regs, IsRegs}
use haier_controller.Driver.Uart.{Ticks, Poll}
use haier_controller.Driver.Sniffer.Rounds.{turns, Round, FitWords, length_of, turns-Round}
use haier_controller.Driver.Api.{Plan, state_of_int, out_of_range}
use haier_controller.Driver.Api.Commands.{
  sends, set_pump_mode-sends, set_pump_state-sends, set_pump_ch_temp-sends, set_pump_dhw_temp-sends,
}
use haier_controller.Driver.Write.Performed.{IsCarriedOut, performed-IsCarriedOut}
use haier_controller.App.Mqtt.{
  rx_size, Handler, cmd_ch, cmd_dhw, cmd_state, cmd_mode, Call, Numbers, on_publish, handle,
}
use haier_controller.App.Mqtt.Laws.{Free, spelled, on_publish-spelled}
use haier_controller.App.Mqtt.Sends.{call_of, arrives, command_of}

module _ (r0 r1 r2 r3 r4 r5 : ℕ) (r141 r201 r241 : List ℕ) where
  -- The registers of a round, and the settings that its first block carries.
  abbrev pub heard : Regs
  heard = record { r101 = r0 ∷ r1 ∷ r2 ∷ r3 ∷ r4 ∷ r5 ∷ []; r141 = r141; r201 = r201; r241 = r241 }

  abbrev in_force : Settings
  in_force = settings_of r0 r1 r2 r3 r4 r5

  module _ (k : Ticks) (cfg : HeatpumpConfig) (pending : Bool) (old : Regs) (line after : List Poll)
      (old_sizes : IsRegs old) (sizes : IsRegs heard) (fit : FitWords heard)
      (round : Round k cfg.slave_addr heard line after) (F : Floats) (n : Numbers F) (regs : List ℕ)
      (arg : List ℕ) (answer tail : ℕ) (rest : List ℕ) (text : Free 0 arg) where
    -- The turns of the sniffer that take in the round, and then the message.
    abbrev pub command_after : Call → Option Plan
    command_after c = turns k cfg pending (length_of round) old line >>= λ seen.
        command_of F n seen.0 regs
          (on_publish (length (spelled c)) (pos answer) (arrives c tail rest))

    known : heard.r101 ≡ words in_force
    known = sym (settings_of-words r0 r1 r2 r3 r4 r5 fit.words101.1.1.1.1.1.0)

    in_force-IsSettings : IsSettings in_force
    in_force-IsSettings =
        settings_of-IsSettings r0 r1 r2 r3 r4 r5 fit.words101.1.0 fit.words101.1.1.1.1.1.0

    command_after_lem :
        (c : Call)
        → command_after c
          ≡ command_of F n heard regs
              (on_publish (length (spelled c)) (pos answer) (arrives c tail rest))
    command_after_lem c =
        rw (turns-Round k cfg pending old heard line after old_sizes sizes fit round) refl

    -- What a message comes to that makes the driver send `ws` to `addr`: see IsCarriedOut.
    abbrev pub Carries : Handler → ℤ → ℤ → Bool → ℕ → List ℕ → Type 0
    Carries h iface outcome taken addr ws =
        (p : Plan) × (command_after (call_of h arg) ≡ some p)
        × IsCarriedOut iface cfg.slave_addr taken outcome p addr ws

    carries :
        (h : Handler) (iface outcome : ℤ) (taken : Bool) (addr : ℕ) (ws : List ℕ)
        → length (spelled (call_of h arg)) < rx_size
        → handle F n heard regs (call_of h arg) ≡ sends addr ws
        → Carries h iface outcome taken addr ws
    carries h iface outcome taken addr ws fits plan = (
      _,
      rw
          (
            command_after_lem (call_of h arg),
            on_publish-spelled (call_of h arg) answer tail rest text fits,
          )
          plan,
      performed-IsCarriedOut iface outcome taken cfg.slave_addr addr ws,
    )

    -- If the four blocks come on the line in order, each frame from the configured address and in
    -- time, after any number of bytes that are not the address, of frames that are no report of a
    -- block, and of frames that break off, with any words of 16 bits: then after as many turns of
    -- the sniffer, not held off, as there are of all these, whatever the registers of their sizes
    -- held before, and an array of six, a message `state`, a space and a value without a NUL,
    -- which fits the buffer, was read without an error, and of which strtol makes a number below
    -- 7 whose request changes the state that the first block carries, comes to a call of the
    -- driver that reports success, whatever write_pump returns, and brings an idle line back to
    -- an idle one; and if the interface is there and the semaphore is given in time, and only
    -- then, it makes one write, with the pin high and the sniffer held off, to the configured
    -- slave for address 101: the words of the requested settings, made from those of the block,
    -- under the flag of the request.
    pub state_message-Carries :
        length regs ≡ 6
        → (v : ℕ) (iface outcome : ℤ) (taken : Bool)
        → length (spelled (call_of cmd_state arg)) < rx_size
        → n.strtol arg ≡ pos v
        → v < 7
        → IsChange (state_of_int (pos v)) in_force
        → Carries cmd_state iface outcome taken 101 (
            words (
              command
                (flag_of (state_of_int (pos v)))
                0
                (requested (state_of_int (pos v)) in_force)))
    unfolding handle
    state_message-Carries six v iface outcome taken fits number small change =
        carries cmd_state iface outcome taken 101 _ fits (
          rw number
            (set_pump_state-sends in_force in_force-IsSettings heard known regs six v small change))

    -- `mode`, with an array of one.
    pub mode_message-Carries :
        (v o : ℕ) (iface outcome : ℤ) (taken : Bool)
        → regs ≡ o ∷ []
        → length (spelled (call_of cmd_mode arg)) < rx_size
        → n.strtol arg ≡ pos v
        → v < 3
        → Carries cmd_mode iface outcome taken 201 ((0x0100 + v) ∷ [])
    unfolding handle
    mode_message-Carries v o iface outcome taken one fits number small =
        carries cmd_mode iface outcome taken 201 _ fits
          (rw (number, one) (set_pump_mode-sends v o small).0)

    module _ (six : length regs ≡ 6) (L : Rounds F) (z iface outcome : ℤ) (taken : Bool)
        (finite : F.trunc (n.strtof arg) ≡ some z)
        (accepted : out_of_range F (n.strtof arg) ≡ false) where
      -- If the four blocks come on the line in order, each frame from the configured address and
      -- in time, after any number of bytes that are not the address, of frames that are no report
      -- of a block, and of frames that break off, with any words of 16 bits: then after as many
      -- turns of the sniffer, not held off, as there are of all these, whatever the registers of
      -- their sizes held before, and an array of six, a message `ch`, a space and a value without
      -- a NUL, which fits the buffer, was read without an error, and of which strtof makes a
      -- finite number that the guard lets through, on floats whose doubling of a number from 6 to
      -- 50 gives, when cut, an integer from 12 to 100, comes to a call of the driver that reports
      -- success, whatever write_pump returns, and brings an idle line back to an idle one; and if
      -- the interface is there and the semaphore is given in time, and only then, it makes one
      -- write, with the pin high and the sniffer held off, to the configured slave for address
      -- 101: the words of the settings that the first block carries, with the heating target
      -- replaced by the number in half degrees, from 12 to 100, under command flag 4.
      pub ch_message-Carries :
          length (spelled (call_of cmd_ch arg)) < rx_size
          → (m : ℕ) × (F.trunc (F.mul (n.strtof arg) (F.literal 2 0)) ≡ some (pos m))
            × (12 ≤ m)
            × (m ≤ 100)
            × Carries cmd_ch iface outcome taken 101
                (words (command 4 0 (record in_force { ch_temp = m })))
      unfolding handle
      ch_message-Carries fits =
          let (m, cut, low, high, plan) =
            set_pump_ch_temp-sends in_force in_force-IsSettings heard known regs six F L
              (n.strtof arg) z finite accepted in
          (m, cut, low, high, carries cmd_ch iface outcome taken 101 _ fits plan)

      -- If the four blocks come on the line in order, each frame from the configured address and
      -- in time, after any number of bytes that are not the address, of frames that are no report
      -- of a block, and of frames that break off, with any words of 16 bits: then after as many
      -- turns of the sniffer, not held off, as there are of all these, whatever the registers of
      -- their sizes held before, and an array of six, a message `dhw`, a space and a value
      -- without a NUL, which fits the buffer, was read without an error, and of which strtof
      -- makes a finite number that the guard lets through, on floats whose doubling of a number
      -- from 6 to 50 gives, when cut, an integer from 12 to 100, comes to a call of the driver
      -- that reports success, whatever write_pump returns, and brings an idle line back to an
      -- idle one; and if the interface is there and the semaphore is given in time, and only
      -- then, it makes one write, with the pin high and the sniffer held off, to the configured
      -- slave for address 101: the words of the settings that the first block carries, with the
      -- tank target replaced by the number in half degrees, from 12 to 100, under no command flag
      -- and mark 2.
      pub dhw_message-Carries :
          length (spelled (call_of cmd_dhw arg)) < rx_size
          → (m : ℕ) × (F.trunc (F.mul (n.strtof arg) (F.literal 2 0)) ≡ some (pos m))
            × (12 ≤ m)
            × (m ≤ 100)
            × Carries cmd_dhw iface outcome taken 101
                (words (command 0 2 (record in_force { dhw_target = pos m })))
      unfolding handle
      dhw_message-Carries fits =
          let (m, cut, low, high, plan) =
            set_pump_dhw_temp-sends in_force in_force-IsSettings heard known regs six F L
              (n.strtof arg) z finite accepted in
          (m, cut, low, high, carries cmd_dhw iface outcome taken 101 _ fits plan)
