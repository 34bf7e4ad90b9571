-- ===== src/App/Shell/Agrees.antt =====
-- The shell and the topic of commands.
use haier_controller.Prelude.{ℕ, pos, ◌<◌, ◌≡◌, refl, List, [], ◌∷◌, ◌++◌, Option, some, length}
use haier_controller.Floats.{Floats}
use haier_controller.Cmd.Types.{◌>>=◌}
use haier_controller.Driver.State.{Regs}
use haier_controller.Driver.Api.{Plan}
use haier_controller.Driver.Device.{heatpump_api}
use haier_controller.App.Mqtt.{
  rx_size, Handler, cmd_ch, cmd_dhw, cmd_state, cmd_mode, Call, Numbers, on_publish, handle,
}
use haier_controller.App.Mqtt.Laws.{Free, name_of, spelled, on_publish-spelled}
use haier_controller.App.Mqtt.Sends.{command_of}
use haier_controller.App.Shell.{
  SetCommand, set_ch, set_dhw, set_mode, set_state, set_name, sub_heatpump_set, Search, hp_set,
  run_set, cmd_set_ch, cmd_set_dhw, cmd_set_mode, cmd_set_state,
}

-- The search finds each subcommand of the table under its name.
abbrev pub FindsAll : Search → Type 0
FindsAll find = (c : SetCommand) → find (set_name c) sub_heatpump_set ≡ some c

-- The plan of a call, where the command was found.
abbrev pub as_found : Option Plan → Option (Option Plan)
as_found plan = plan >>= λ p. some (some p)

module _ (F : Floats) (n : Numbers F) (r : Regs) (regs : List ℕ) (find : Search)
    (all : FindsAll find) where
  hp_set-handle :
      (h : Handler) (arg : List ℕ)
      → hp_set (heatpump_api F) n r find regs (name_of h ∷ arg ∷ [])
        ≡ as_found (handle F n r regs (record { handler = h; arg = arg }))
  unfolding hp_set run_set cmd_set_ch cmd_set_dhw cmd_set_mode cmd_set_state handle
  hp_set-handle cmd_ch arg = rw (all set_ch) refl
  hp_set-handle cmd_dhw arg = rw (all set_dhw) refl
  hp_set-handle cmd_state arg = rw (all set_state) refl
  hp_set-handle cmd_mode arg = rw (all set_mode) refl

  -- For each of the four commands, and a value without a NUL such that the message fits the
  -- buffer and was read without an error: if the shell's search finds each subcommand under its
  -- name, `hp set` with the name and the value makes the same call of the driver, with the same
  -- result, as the message on the topic of commands.
  pub hp_set-on_publish :
      (c : Call) (answer old : ℕ) (rest : List ℕ)
      → Free 0 c.arg
      → length (spelled c) < rx_size
      → hp_set (heatpump_api F) n r find regs (name_of c.handler ∷ c.arg ∷ [])
        ≡ as_found (
            command_of F n r regs
              (on_publish (length (spelled c)) (pos answer) (spelled c ++ old ∷ rest)))
  hp_set-on_publish c answer old rest text fits =
      rw (on_publish-spelled c answer old rest text fits) (hp_set-handle c.handler c.arg)
